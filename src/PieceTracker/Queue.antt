-- ===== src/PieceTracker/Queue.antt =====
-- The pieces that `iter_queued_pieces` yields.
use rust_torrent.Prelude.{
  ℕ, zero, suc, ◌+◌, ◌-◌, ◌*◌, ◌≤◌, ◌<◌, ◌≡◌, refl, sym, ◌∙◌, ap, subst, Bool, true, false, ◌||◌,
  ◌⊎◌, Bool-cases, Option-cases, inl, inr, Option, none, some, List, [], ◌∷◌, ◌++◌, length,
  get_elem?, lt→ltb, ◌==◌, ==→eq, u64_mod, arith,
}
use rust_torrent.Prelude.Members.{member}
use rust_torrent.Outcome.{ok}
use rust_torrent.Lengths.{Lengths, validate_piece_index, piece_bitfield_bytes}
use rust_torrent.Lengths.Valid
use rust_torrent.Lengths.Pieces.{total_pieces-eq}
use mathlib.Core.Option.{some-injective}
use rust_torrent.Bits.{Bits}
use rust_torrent.FileInfo.{FileInfo}
use rust_torrent.FileInfo.Order.{iter_piece_priorities-member}
use rust_torrent.ChunkTracker.{ChunkTracker, FileInfos}
use rust_torrent.ChunkTracker.Start.{FilesFit}
use rust_torrent.ChunkTracker.Valid.{IsShaped}
use rust_torrent.ChunkTracker.Methods.{
  as_valid_piece, filter_queued, filter_valid, unfinished_file, pieces_of, iter_queued_pieces,
}

pub member-append : (p : ℕ) (xs ys : List ℕ) → member p (xs ++ ys) ≡ (member p xs || member p ys)
member-append p [] ys = refl
member-append p (x ∷ xs) ys = ground (arith, member-append p xs ys)

head_or_tail :
    (f : ℕ → Bool) (i p : ℕ) (out : List ℕ)
    → f i ≡ true
    → member p (i ∷ out) ≡ true
    → (member p out ≡ true → f p ≡ true)
    → f p ≡ true
head_or_tail f i p out t m rec = elim (Bool-cases (p == i)) [
  | inl e ↦ ap f (==→eq p i e) ∙ t
  | inr n ↦ rec (rw n at m)
]

as_valid_piece-in :
    (l : Lengths) (i p : ℕ) → as_valid_piece l i ≡ some p → (p ≡ i) × (p ≤ l.last_piece_id)
unfolding validate_piece_index
as_valid_piece-in l i p h = ground arith

filter_valid-member :
    (l : Lengths) (ids : List ℕ) (p : ℕ)
    → member p (filter_valid l ids) ≡ true
    → (member p ids ≡ true) × (p ≤ l.last_piece_id)
unfolding filter_valid
filter_valid-member l [] p m = cc
filter_valid-member l (i ∷ ids) p m = elim (Option-cases (as_valid_piece l i)) [
  | inl skip ↦
      let r = filter_valid-member l ids p (rw (skip, filter_valid) at m) in
      (ground (arith, r.0), r.1)
  | inr (q, keep) ↦
      let here = as_valid_piece-in l i q keep in
      first_or_rest (Bool-cases (p == q)) here (rw (keep, filter_valid) at m)
        (filter_valid-member l ids p)
]
  where
    first_or_rest :
        {q : ℕ}
        → ((p == q) ≡ true) ⊎ ((p == q) ≡ false)
        → (q ≡ i) × (q ≤ l.last_piece_id)
        → (p == q || member p (filter_valid l ids)) ≡ true
        → (member p (filter_valid l ids) ≡ true → (member p ids ≡ true) × (p ≤ l.last_piece_id))
        → ((p == i || member p ids) ≡ true) × (p ≤ l.last_piece_id)
    first_or_rest (inl t) here m rec = ground arith
    first_or_rest (inr f) here m rec = let r = rec (rw f at m) in (ground arith, r.1)

pub get_elem?-some :
    {A : Type 0} (xs : List A) (i : ℕ) → i < length xs → (a : A) × (get_elem? xs i ≡ some a)
get_elem?-some [] i h = absurd (omega arith)
get_elem?-some (x ∷ xs) zero h = (x, refl)
get_elem?-some (x ∷ xs) (suc i) h = get_elem?-some xs i (omega arith)

some_lt : {A : Type 0} (xs : List A) (i : ℕ) {a : A} → get_elem? xs i ≡ some a → i < length xs
some_lt [] i e = cc
some_lt (x ∷ xs) zero e = omega arith
some_lt (x ∷ xs) (suc i) e = omega (arith, some_lt xs i e)

bitfield_bound : {l : Lengths} → Valid.IsValid l → piece_bitfield_bytes l * 8 < u64_mod
unfolding piece_bitfield_bytes
bitfield_bound {l} v = ground (arith, total_pieces-eq v, Valid.ids_bound v)

module _ {BF : Type 0} ⦃bits : Bits BF⦄ where
  fits_at :
      (b : BF) (fis : FileInfos) (id : ℕ) {fi : FileInfo}
      → FilesFit b fis
      → get_elem? fis id ≡ some fi
      → fi.piece_range.start + (fi.piece_range.end - fi.piece_range.start) ≤ bits.len b
  fits_at b [] id f e = cc
  fits_at b (x ∷ fis) zero f e = ground arith
  fits_at b (x ∷ fis) (suc id) f e = fits_at b fis id f.1 e

  filter_queued-total :
      (queue : BF) (ids : List ℕ)
      → ((i : ℕ) → member i ids ≡ true → i < bits.len queue)
      → (out : List ℕ) × (filter_queued queue ids ≡ ok out)
        × ((p : ℕ) → member p out ≡ true → bits.get queue p ≡ true)
  unfolding filter_queued
  filter_queued-total queue [] small = ([], refl, λ p m. cc)
  filter_queued-total queue (i ∷ ids) small =
      let (out, eq, get) = filter_queued-total queue ids (λ j m. small j (ground arith)) in
      let here = small i (ground arith) in
      elim (Bool-cases (bits.get queue i)) [
        | inl t ↦ (
          i ∷ out,
          rw (lt→ltb i (bits.len queue) here, eq, t),
          λ p m. head_or_tail (bits.get queue) i p out t m (get p),
        )
        | inr f ↦ (out, rw (lt→ltb i (bits.len queue) here, eq, f), get)
      ]

  pub queue_small : {ct : ChunkTracker BF} → IsShaped ct → bits.len ct.queue_pieces < u64_mod
  queue_small {ct} w = omega (arith, w.queue_len, bitfield_bound w.lengths_valid)

  either_part :
      (ct : ChunkTracker BF) (p : ℕ) (queued rest : List ℕ)
      → member p (filter_valid ct.lengths queued ++ rest) ≡ true
      → ((i : ℕ) → member i queued ≡ true → bits.get ct.queue_pieces i ≡ true)
      → ((i : ℕ)
          → member i rest ≡ true
          → (bits.get ct.queue_pieces i ≡ true) × (i ≤ ct.lengths.last_piece_id))
      → (bits.get ct.queue_pieces p ≡ true) × (p ≤ ct.lengths.last_piece_id)
  either_part ct p queued rest m get good =
      let m' = sym (member-append p (filter_valid ct.lengths queued) rest) ∙ m in
      elim (Bool-cases (member p (filter_valid ct.lengths queued))) [
        | inl here ↦ let r = filter_valid-member ct.lengths queued p here in (get p r.0, r.1)
        | inr later ↦ good p (rw later at m')
      ]

  -- A file that is looked up has its slot and its pieces have bits.
  pub unfinished_file-total :
      (ct : ChunkTracker BF) (fis : FileInfos) (id : ℕ)
      → FilesFit ct.queue_pieces fis
      → length fis ≤ length ct.per_file_bytes
      → (file : Option FileInfo) × (unfinished_file ct fis id ≡ ok file)
        × ((fi : FileInfo)
            → file ≡ some fi
            → fi.piece_range.start + (fi.piece_range.end - fi.piece_range.start)
              ≤ bits.len ct.queue_pieces)
  unfolding unfinished_file
  unfinished_file-total ct fis id fit slots = elim (Option-cases (get_elem? fis id)) [
    | inl unknown ↦ (none, rw (unfinished_file, unknown), λ fi e. cc)
    | inr (fi, known) ↦
        let (n, slot) = get_elem?-some ct.per_file_bytes id (omega (arith, some_lt fis id known)) in
        elim (Bool-cases (n == fi.len)) [
          | inl complete ↦ (none, rw (unfinished_file, known, slot, complete), λ f e. cc)
          | inr open_file ↦ (
            some fi,
            rw (unfinished_file, known, slot, open_file),
            λ f e.
                subst
                  (λ (g : FileInfo).
                    g.piece_range.start + (g.piece_range.end - g.piece_range.start)
                    ≤ bits.len ct.queue_pieces)
                  (some-injective _ _ e) (fits_at ct.queue_pieces fis id fit known),
          )
        ]
  ]

  -- The pieces of a file are below the number of bits.
  pub priorities-small :
      (queue : BF) (file : Option FileInfo)
      → bits.len queue < u64_mod
      → ((fi : FileInfo)
          → file ≡ some fi
          → fi.piece_range.start + (fi.piece_range.end - fi.piece_range.start) ≤ bits.len queue)
      → (i : ℕ) → member i (pieces_of file) ≡ true
      → i < bits.len queue
  priorities-small queue none small fits i m = cc
  priorities-small queue (some fi) small fits i m = omega (
    arith,
    fits fi refl,
    iter_piece_priorities-member fi.piece_range i (omega (arith, fits fi refl)) m,
  )

  -- In a tracker of the right shape, for files whose pieces have bits and that have their byte
  -- counts, `iter_queued_pieces` does not panic for any list of file numbers, and each piece that
  -- it yields is queued and belongs to the torrent.
  pub iter_queued_pieces-total :
      {ct : ChunkTracker BF}
      → IsShaped ct
      → (fis : FileInfos) (ids : List ℕ) → FilesFit ct.queue_pieces fis
      → length fis ≤ length ct.per_file_bytes
      → (out : List ℕ) × (iter_queued_pieces ct ids fis ≡ ok out)
        × ((p : ℕ)
            → member p out ≡ true
            → (bits.get ct.queue_pieces p ≡ true) × (p ≤ ct.lengths.last_piece_id))
  unfolding iter_queued_pieces
  iter_queued_pieces-total w fis [] fit slots = ([], refl, λ p m. cc)
  iter_queued_pieces-total {ct} w fis (id ∷ ids) fit slots =
      let (file, eq₁, fits) = unfinished_file-total ct fis id fit slots in
      let (queued, eq₂, get) =
        filter_queued-total ct.queue_pieces (pieces_of file)
          (priorities-small ct.queue_pieces file (queue_small w) fits) in
      let (rest, eq₃, good) = iter_queued_pieces-total w fis ids fit slots in
      (
        filter_valid ct.lengths queued ++ rest,
        rw (eq₁, eq₂, eq₃),
        λ p m. either_part ct p queued rest m get good,
      )
