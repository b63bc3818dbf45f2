-- ===== src/PieceTracker/Yields.antt =====
-- What `iter_queued_pieces` does not leave out.
use rust_torrent.Prelude.{
  ℕ, ◌+◌, ◌-◌, ◌≤◌, ◌<◌, ◌≡◌, refl, sym, ◌∙◌, ap, subst, true, false, Bool-cases, Option-cases, inl,
  inr, Option, some, List, [], ◌∷◌, ◌++◌, length, get_elem?, lt→ltb, ◌==◌, ==→eq, u32_mod, u64_mod,
  arith,
}
use rust_torrent.Prelude.Members.{member}
use rust_torrent.Outcome.{ok}
use rust_torrent.Lengths.{Lengths, validate_piece_index}
use rust_torrent.Lengths.Valid
use rust_torrent.Bits.{Bits}
use rust_torrent.FileInfo.{FileInfo}
use rust_torrent.FileInfo.Order.{member-iter_piece_priorities}
use rust_torrent.ChunkTracker.{ChunkTracker, FileInfos}
use rust_torrent.ChunkTracker.Start.{FilesFit}
use rust_torrent.ChunkTracker.Valid.{IsShaped}
use rust_torrent.ChunkTracker.Methods.{
  as_valid_piece, filter_queued, filter_valid, unfinished_file, pieces_of, iter_queued_pieces,
}
use rust_torrent.PieceTracker.Queue.{
  member-append, unfinished_file-total, priorities-small, queue_small,
}

member-filter_valid :
    (l : Lengths) (ids : List ℕ) (p : ℕ)
    → p ≤ l.last_piece_id
    → l.last_piece_id < u32_mod
    → member p ids ≡ true
    → member p (filter_valid l ids) ≡ true
unfolding filter_valid validate_piece_index
member-filter_valid l [] p le small m = cc
member-filter_valid l (i ∷ ids) p le small m = elim (Bool-cases (p == i)) [
  | inl t ↦
      let keep : as_valid_piece l i ≡ some i = ground (arith, t, le, small) in
      rw (filter_valid, keep) (ground (arith, t))
  | inr f ↦
      let rec = member-filter_valid l ids p le small (rw f at m) in
      elim (Option-cases (as_valid_piece l i)) [
        | inl skip ↦ rw (filter_valid, skip) rec
        | inr (q, keep) ↦ rw (filter_valid, keep) (ground (arith, rec))
      ]
]

module _ {BF : Type 0} ⦃bits : Bits BF⦄ where
  filter_queued-yields :
      (queue : BF) (ids : List ℕ)
      → ((i : ℕ) → member i ids ≡ true → i < bits.len queue)
      → (out : List ℕ) × (filter_queued queue ids ≡ ok out)
        × ((p : ℕ) → member p ids ≡ true → bits.get queue p ≡ true → member p out ≡ true)
  unfolding filter_queued
  filter_queued-yields queue [] small = ([], refl, λ p m q. cc)
  filter_queued-yields queue (i ∷ ids) small =
      let (out, eq, has) = filter_queued-yields queue ids (λ j m. small j (ground arith)) in
      let here = small i (ground arith) in
      elim (Bool-cases (bits.get queue i)) [
        | inl t ↦ (
          i ∷ out,
          rw (lt→ltb i (bits.len queue) here, eq, t),
          λ p m q. elim (Bool-cases (p == i)) [
            | inl e ↦ rw e refl
            | inr f ↦ let r = has p (rw f at m) q in ground (arith, r)
          ],
        )
        | inr missing ↦ (
          out,
          rw (lt→ltb i (bits.len queue) here, eq, missing),
          λ p m q. elim (Bool-cases (p == i)) [
            | inl e ↦ cc (q, missing, ap (bits.get queue) (==→eq p i e))
            | inr f ↦ has p (rw f at m) q
          ],
        )
      ]

  -- A queued piece of a file that is not complete.
  pub record IsOffered (ct : ChunkTracker BF) (fis : FileInfos) (id p : ℕ) : Type 0 where
    pub file : FileInfo
    pub known : get_elem? fis id ≡ some file
    pub have_bytes : ℕ
    pub slot : get_elem? ct.per_file_bytes id ≡ some have_bytes
    pub open_file : (have_bytes == file.len) ≡ false
    pub from : file.piece_range.start ≤ p
    pub before : p < file.piece_range.end
    pub inside : p ≤ ct.lengths.last_piece_id
    pub queued : bits.get ct.queue_pieces p ≡ true

  -- The piece is one of those of the file that is looked up.
  offered-member :
      {ct : ChunkTracker BF} (fis : FileInfos) (id p : ℕ) (file : Option FileInfo)
      → bits.len ct.queue_pieces < u64_mod
      → IsOffered ct fis id p
      → unfinished_file ct fis id ≡ ok file
      → ((fi : FileInfo)
          → file ≡ some fi
          → fi.piece_range.start + (fi.piece_range.end - fi.piece_range.start)
            ≤ bits.len ct.queue_pieces)
      → member p (pieces_of file) ≡ true
  unfolding unfinished_file
  offered-member {ct} fis id p file small o eq fits =
      let looked : unfinished_file ct fis id ≡ ok (some o.file) =
        rw (unfinished_file, o.known, o.slot, o.open_file) refl in
      let same : some o.file ≡ file = cc (looked, eq) in
      subst (λ (f : Option FileInfo). member p (pieces_of f) ≡ true) same
        (member-iter_piece_priorities o.file.piece_range p
          (omega (arith, fits o.file (sym same), small)) o.from o.before)

  pub iter_queued_pieces-yields :
      {ct : ChunkTracker BF}
      → IsShaped ct
      → (fis : FileInfos) (ids : List ℕ) → FilesFit ct.queue_pieces fis
      → length fis ≤ length ct.per_file_bytes
      → (out : List ℕ) × (iter_queued_pieces ct ids fis ≡ ok out)
        × ((id p : ℕ) → member id ids ≡ true → IsOffered ct fis id p → member p out ≡ true)
  unfolding iter_queued_pieces
  iter_queued_pieces-yields w fis [] fit slots = ([], refl, λ id p m o. cc)
  iter_queued_pieces-yields {ct} w fis (i ∷ ids) fit slots =
      let (file, eq₁, fits) = unfinished_file-total ct fis i fit slots in
      let small = priorities-small ct.queue_pieces file (queue_small w) fits in
      let (queued, eq₂, has) = filter_queued-yields ct.queue_pieces (pieces_of file) small in
      let (rest, eq₃, later) = iter_queued_pieces-yields w fis ids fit slots in
      let bound = Valid.ids_bound w.lengths_valid in
      (
        filter_valid ct.lengths queued ++ rest,
        rw (eq₁, eq₂, eq₃),
        λ id p m o.
            member-append p (filter_valid ct.lengths queued) rest ∙ elim (Bool-cases (id == i)) [
              | inr f ↦ let r = later id p (rw f at m) o in ground (arith, r)
              | inl t ↦
                  let looked : unfinished_file ct fis id ≡ ok file =
                    ap (unfinished_file ct fis) (==→eq id i t) ∙ eq₁ in
                  let mine = offered-member fis id p file (queue_small w) o looked fits in
                  let valid =
                    member-filter_valid ct.lengths queued p o.inside (omega (arith, bound))
                      (has p mine o.queued) in
                  rw valid refl
            ],
      )
