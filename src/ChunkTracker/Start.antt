-- ===== src/ChunkTracker/Start.antt =====
-- `ChunkTracker::new`: the tracker of a torrent whose pieces have been checked.
use rust_torrent.Prelude.{
  ℕ, zero, suc, ◌+◌, ◌*◌, ◌/◌, ◌≤◌, ◌<◌, ◌≡◌, refl, ◌∙◌, ap, Bool, true, false, not, ◌&&◌,
  Bool-cases, inl, inr, List, [], ◌∷◌, map, length, replicate, length-replicate, range_from, ltb,
  lt→ltb, ltb-eq_false, ◌==◌, ==→eq, ==_refl, ◌-◌, if◌then◌else◌, mul_u32, add_u64, arith,
}
use rust_torrent.Outcome.{ok}
use rust_torrent.Lengths.{
  Lengths, iter_piece_infos, chunks_per_piece, total_chunks, chunk_bitfield_bytes,
  size_of_piece_in_file, piece_bitfield_bytes,
}
use rust_torrent.Lengths.Valid
use rust_torrent.Lengths.Pieces.{total_pieces-eq}
use rust_torrent.Lengths.Ranges.{
  chunk_owner, chunk_range-eq, chunk_range_inside, chunk_piece_in, chunks_per_piece-le,
}
use rust_torrent.Bits.{Bits, in_bounds}
use rust_torrent.FileInfo.{FileInfo}
use rust_torrent.ChunkTracker.{
  ChunkTracker, FileInfos, new, have_status_loop, compute_chunk_have_status, compute_queued_pieces,
  file_have_bytes, recalculate_per_file_bytes,
}
use rust_torrent.ChunkTracker.Bytes.{hns_of, calc_hns-eq}
use rust_torrent.ChunkTracker.Valid.{IsValid, piece_bits, chunk_bits}
use native.Mathlib.Nat.{mul_comm, mul-le-mul_right}

in_bounds-eq :
    {BF : Type 0} ⦃bits : Bits BF⦄ (b : BF) (s e : ℕ)
    → s ≤ e
    → e ≤ bits.len b
    → in_bounds b (record { start = s; end = e }) ≡ true
in_bounds-eq ⦃bits⦄ b s e h k = ground arith

none_before : (h : ℕ → Bool) (q : ℕ) → false ≡ (ltb q 0 && h q)
none_before h q = rw (ltb-eq_false q 0 (omega arith))

grow_there :
    (h : ℕ → Bool) (i q : ℕ)
    → h i ≡ true
    → (if i == q then true else (ltb q i && h q)) ≡ (ltb q (i + 1) && h q)
grow_there h i q e = elim (Bool-cases (i == q)) [
  | inl t ↦ rw t (ground (arith, ap h (==→eq i q t)))
  | inr f ↦ rw f (ground arith)
]

grow_missing : (h : ℕ → Bool) (i q : ℕ) → h i ≡ false → (ltb q i && h q) ≡ (ltb q (i + 1) && h q)
grow_missing h i q e = elim (Bool-cases (i == q)) [
  | inl t ↦ ground (arith, ap h (==→eq i q t))
  | inr f ↦ ground arith
]

module _ {BF : Type 0} ⦃bits : Bits BF⦄ {l : Lengths} (v : Valid.IsValid l) (have : BF)
    (enough : l.last_piece_id < bits.len have) where
  -- The chunks of the pieces before `i` have the bit of their piece, the others none.
  record Filled (i : ℕ) (bf : BF) : Type 0 where
    len : bits.len bf ≡ chunk_bitfield_bytes l * 8
    get :
        (c : ℕ)
        → c < total_chunks l
        → bits.get bf c ≡ (ltb (c / l.chunks_per_piece) i && bits.get have (c / l.chunks_per_piece))

  bounds :
      (i : ℕ)
      → i ≤ l.last_piece_id
      → (mul_u32 l.chunks_per_piece i ≡ i * l.chunks_per_piece)
        × (add_u64 (i * l.chunks_per_piece) (chunks_per_piece l i)
            ≡ i * l.chunks_per_piece + chunks_per_piece l i)
        × (i * l.chunks_per_piece + chunks_per_piece l i ≤ chunk_bitfield_bytes l * 8)
  bounds i h = omega (
    arith,
    mul_comm l.chunks_per_piece i,
    mul-le-mul_right {m = i + 1} {n = l.last_piece_id + 1} l.chunks_per_piece (omega arith),
    chunks_per_piece-le v i,
    v.chunks_bound,
    chunk_range-eq v i h,
    chunk_range_inside v i h,
    chunk_bits l,
  )

  abbrev filled_with : ℕ → BF → BF
  filled_with i bf =
      bits.fill bf (i * l.chunks_per_piece) (i * l.chunks_per_piece + chunks_per_piece l i) true

  fill-Filled :
      (i : ℕ) (bf : BF)
      → i ≤ l.last_piece_id
      → bits.get have i ≡ true
      → Filled i bf
      → Filled (i + 1) (filled_with i bf)
  fill-Filled i bf h there f = record {
    len = bits.len-fill _ _ _ _ ∙ f.len;
    get = λ c lt.
        bits.get-fill bf _ _ true c (rw f.len (bounds i h).2)
        ∙ rw (chunk_owner v i c h lt, f.get c lt)
            (grow_there (bits.get have) i (c / l.chunks_per_piece) there);
  }

  skip-Filled : (i : ℕ) (bf : BF) → bits.get have i ≡ false → Filled i bf → Filled (i + 1) bf
  skip-Filled i bf missing f = record {
    len = f.len;
    get = λ c lt. f.get c lt ∙ grow_missing (bits.get have) i (c / l.chunks_per_piece) missing;
  }

  have_status_loop_lem :
      (i n : ℕ) (bf : BF) (len : ℕ → ℕ)
      → i + n ≡ l.last_piece_id + 1
      → Filled i bf
      → (bf' : BF) × (have_status_loop l have
            (map (λ idx. record { piece_index = idx; len = len idx }) (range_from i n))
            bf
          ≡ ok bf')
        × Filled (l.last_piece_id + 1) bf'
  unfolding have_status_loop
  have_status_loop_lem i zero bf len e f =
      let done : i ≡ l.last_piece_id + 1 = omega arith in (bf, refl, rw (← done) f)
  have_status_loop_lem i (suc n) bf len e f =
      let le : i ≤ l.last_piece_id = omega arith in
      let b = bounds i le in
      elim (Bool-cases (bits.get have i)) [
        | inl there ↦
            let (bf', eq, done) =
              have_status_loop_lem (i + 1) n (filled_with i bf) len (omega arith)
                (fill-Filled i bf le there f) in
            (
              bf',
              rw
                  (
                    lt→ltb i (bits.len have) (omega arith),
                    there,
                    b.0,
                    b.1,
                    in_bounds-eq bf (i * l.chunks_per_piece)
                        (i * l.chunks_per_piece + chunks_per_piece l i) (omega arith)
                        (rw f.len b.2),
                  )
                  eq,
              done,
            )
        | inr missing ↦
            let (bf', eq, done) =
              have_status_loop_lem (i + 1) n bf len (omega arith) (skip-Filled i bf missing f) in
            (bf', rw (lt→ltb i (bits.len have) (omega arith), missing) eq, done)
      ]

  -- For a well-formed torrent and a bit array that has a bit for each piece,
  -- `compute_chunk_have_status` succeeds, the result has the bitfield size of the chunks, and each
  -- chunk of the torrent has the bit of its piece.
  pub compute_chunk_have_status_lem :
      (bf : BF) × (compute_chunk_have_status l have ≡ ok bf)
      × (bits.len bf ≡ chunk_bitfield_bytes l * 8)
      × ((c : ℕ) → c < total_chunks l → bits.get bf c ≡ bits.get have (c / l.chunks_per_piece))
  unfolding compute_chunk_have_status iter_piece_infos
  compute_chunk_have_status_lem =
      let (bf, eq, f) =
        have_status_loop_lem 0 (l.last_piece_id + 1) (bits.zeros (chunk_bitfield_bytes l))
          (λ idx. if idx == l.last_piece_id then l.last_piece_length else l.piece_length)
          (omega arith)
          (record {
            len = bits.len-zeros _;
            get = λ c lt. bits.get-zeros _ c ∙ none_before (bits.get have) (c / l.chunks_per_piece);
          }) in
      (
        bf,
        rw (total_pieces-eq v, ltb-eq_false (bits.len have) (l.last_piece_id + 1) (omega arith)) eq,
        f.len,
        λ c lt.
            f.get c lt
            ∙ rw (
                lt→ltb (c / l.chunks_per_piece) (l.last_piece_id + 1)
                  (omega (arith, chunk_piece_in v c lt))),
      )

module _ {BF : Type 0} ⦃bits : Bits BF⦄ where
  file_have_bytes-total :
      (l : Lengths) (have : BF) (fi : FileInfo) (s n : ℕ)
      → s + n ≤ bits.len have
      → (sum : ℕ) × (file_have_bytes l have fi (range_from s n) ≡ ok sum)
  unfolding file_have_bytes
  file_have_bytes-total l have fi s zero h = (0, refl)
  file_have_bytes-total l have fi s (suc n) h =
      let (sum, eq) = file_have_bytes-total l have fi (s + 1) n (omega arith) in
      (
        if bits.get have s
            then add_u64 (size_of_piece_in_file l s fi.offset_in_torrent fi.len) sum
            else sum,
        rw (lt→ltb s (bits.len have) (omega arith), eq),
      )

  -- The pieces of every file have bits.
  abbrev pub FilesFit : BF → FileInfos → Type 0
  FilesFit have [] = Unit {0}
  FilesFit have (fi ∷ fis) =
      (fi.piece_range.start + (fi.piece_range.end - fi.piece_range.start) ≤ bits.len have)
      × FilesFit have fis

  recalculate-total :
      (l : Lengths) (have : BF) (fis : FileInfos) (slots : List ℕ)
      → FilesFit have fis
      → (sums : List ℕ) × (recalculate_per_file_bytes l have slots fis ≡ ok sums)
        × (length sums ≡ length slots)
  unfolding recalculate_per_file_bytes
  recalculate-total l have fis [] h = ([], refl, refl)
  recalculate-total l have [] (slot ∷ slots) h = (slot ∷ slots, refl, refl)
  recalculate-total l have (fi ∷ fis) (slot ∷ slots) h =
      let (sum, eq) = file_have_bytes-total l have fi fi.piece_range.start _ h.0 in
      let (sums, eqs, len) = recalculate-total l have fis slots h.1 in
      (sum ∷ sums, rw (eq, eqs), ap suc len)

  -- For a well-formed torrent, two bit arrays of its bitfield size and files whose pieces have
  -- bits, `ChunkTracker::new` succeeds, and the tracker keeps the arrays and the lengths, satisfies
  -- the invariant, has one byte count for each file, queues a piece of the torrent exactly if it is
  -- selected and not there, and marks a chunk exactly if its piece is there.
  pub new_lem :
      {l : Lengths}
      → Valid.IsValid l
      → (have selected : BF) (fis : FileInfos) → bits.len have ≡ piece_bitfield_bytes l * 8
      → bits.len selected ≡ piece_bitfield_bytes l * 8
      → FilesFit have fis
      → (ct : ChunkTracker BF) × (new have selected l fis ≡ ok ct)
        × IsValid ct
        × (ct.have ≡ have)
        × (ct.selected ≡ selected)
        × (ct.lengths ≡ l)
        × (length ct.per_file_bytes ≡ length fis)
        × ((j : ℕ)
            → j ≤ l.last_piece_id
            → bits.get ct.queue_pieces j ≡ (not (bits.get have j) && bits.get selected j))
        × ((c : ℕ)
            → c < total_chunks l
            → bits.get ct.chunk_status c ≡ bits.get have (c / l.chunks_per_piece))
  unfolding new compute_queued_pieces
  new_lem {l} v have selected fis hl sl fit =
      let enough : l.last_piece_id < bits.len have = omega (arith, piece_bits v) in
      let same : bits.len have ≡ bits.len selected = omega arith in
      let (status, eq₁, len₁, get₁) = compute_chunk_have_status_lem v have enough in
      let (sums, eq₂, len₂) = recalculate-total l have fis (replicate (length fis) 0) fit in
      let eq₃ = calc_hns-eq l have selected v enough (omega arith) in
      (
        record {
          queue_pieces = bits.and_not have selected;
          chunk_status = status;
          have = have;
          selected = selected;
          per_file_bytes = sums;
          lengths = l;
          hns = hns_of l (bits.get have) (bits.get selected);
        },
        rw (same, ==_refl (bits.len selected), eq₁, eq₂, eq₃),
        record {
          shaped = record {
            lengths_valid = v;
            queue_len = bits.len-and_not have selected same ∙ hl;
            have_len = hl;
            selected_len = sl;
            chunk_len = len₁;
          };
          synced = refl;
        },
        refl,
        refl,
        refl,
        len₂ ∙ length-replicate (length fis) 0,
        (λ j h. bits.get-and_not have selected j same (omega arith)),
        get₁,
      )
