-- ===== src/Lengths/Received.antt =====
-- Data received from a peer: `chunk_info_from_received_data` against the chunks of the piece.
use rust_torrent.Prelude.{
  ℕ, ◌+◌, ◌-◌, ◌*◌, ◌/◌, ◌≤◌, ◌<◌, ◌≡◌, ◌↔◌, ◌∙◌, sym, min, none, some, get_elem?, get_elem?-none,
  u32_mod, mul_u32, arith, ◌==◌, if◌then◌else◌,
}
use rust_torrent.Constants.{max_chunk_size}
use rust_torrent.Lengths.{
  Lengths, ChunkInfo, iter_chunk_infos, piece_length, chunks_per_piece, chunk_size,
  chunk_offset_in_piece, chunk_info_from_received_data, chunk_range,
}
use rust_torrent.Lengths.Valid.{IsValid}
use rust_torrent.Lengths.Ranges.{chunk_range-eq, chunks_per_piece-le}
use rust_torrent.Lengths.Chunks.{
  chunk_at, length-iter_chunk_infos, chunks_per_piece-eq, get_elem?-chunk_infos_from,
}
use native.Mathlib.Nat.{mul-le-mul_right, mul_comm}
use native.Mathlib.Decide.{dec_lt}

pub piece_length_pos : {l : Lengths} → IsValid l → (i : ℕ) → 0 < piece_length l i
unfolding piece_length
piece_length_pos v i = ground arith

pub piece_length_bound : {l : Lengths} → IsValid l → (i : ℕ) → piece_length l i < u32_mod
unfolding piece_length
piece_length_bound v i = ground arith

-- `chunk_size` in closed form.
pub chunk_size-eq :
    {l : Lengths}
    → IsValid l
    → (i k : ℕ) → k * max_chunk_size < piece_length l i
    → chunk_size l i k ≡ some (min (piece_length l i - k * max_chunk_size) max_chunk_size)
unfolding chunk_size
chunk_size-eq {l} v i k h = ground (arith, piece_length_pos v i, piece_length_bound v i)

pub chunk_size-none :
    {l : Lengths}
    → IsValid l
    → (i k : ℕ) → piece_length l i ≤ k * max_chunk_size
    → chunk_size l i k ≡ none
unfolding chunk_size
chunk_size-none {l} v i k h = ground (arith, piece_length_pos v i, piece_length_bound v i)

pub chunk_offset_in_piece-eq :
    {l : Lengths}
    → IsValid l
    → (i k : ℕ) → k * max_chunk_size < piece_length l i
    → chunk_offset_in_piece l i k ≡ some (k * max_chunk_size)
unfolding chunk_offset_in_piece chunks_per_piece
chunk_offset_in_piece-eq {l} v i k h =
    ground (arith, chunks_per_piece-eq v i, piece_length_bound v i)

-- The `k`-th chunk of piece `i`.
abbrev pub nth_chunk : Lengths → ℕ → ℕ → ChunkInfo
nth_chunk l i k = chunk_at i (mul_u32 i l.chunks_per_piece) (piece_length l i) 0 0 k

pub get_elem?-iter_chunk_infos :
    {l : Lengths}
    → IsValid l
    → (i k : ℕ) → k * max_chunk_size < piece_length l i
    → get_elem? (iter_chunk_infos l i) k ≡ some (nth_chunk l i k)
unfolding iter_chunk_infos
get_elem?-iter_chunk_infos {l} v i k h =
    get_elem?-chunk_infos_from (piece_length l i / max_chunk_size + 1) i
      (mul_u32 i l.chunks_per_piece) (piece_length l i) 0 0 k (omega arith)
      (omega (arith, piece_length_bound v i)) (omega (arith, piece_length_bound v i)) h

get_elem?-past_end :
    {l : Lengths}
    → IsValid l
    → (i k : ℕ) → piece_length l i ≤ k * max_chunk_size
    → get_elem? (iter_chunk_infos l i) k ≡ none
get_elem?-past_end {l} v i k h =
    get_elem?-none (iter_chunk_infos l i) k
      (rw (length-iter_chunk_infos v i, chunks_per_piece-eq v i) (ground arith))

-- The answer inside the piece, over the closed forms of its parts.
received_inside :
    {l : Lengths}
    → IsValid l
    → (i begin size : ℕ) → begin / max_chunk_size * max_chunk_size < piece_length l i
    → chunk_info_from_received_data l i begin size ≡ (
        let c = nth_chunk l i (begin / max_chunk_size) in
        if c.offset == begin then (if c.size == size then some c else none) else none)
unfolding chunk_info_from_received_data
received_inside {l} v i begin size h =
    let k = begin / max_chunk_size in
    rw (chunk_size-eq v i k h, chunk_offset_in_piece-eq v i k h)
      (ground (arith, mul_comm l.chunks_per_piece i))

received_outside :
    {l : Lengths}
    → IsValid l
    → (i begin size : ℕ) → piece_length l i ≤ begin / max_chunk_size * max_chunk_size
    → chunk_info_from_received_data l i begin size ≡ none
unfolding chunk_info_from_received_data
received_outside {l} v i begin size h = rw (chunk_size-none v i (begin / max_chunk_size) h)

accepts_iff :
    (c' c : ChunkInfo) (begin size : ℕ)
    → ((if c'.offset == begin then (if c'.size == size then some c' else none) else none) ≡ some c)
      ↔ ((some c' ≡ some c) × (c.offset ≡ begin) × (c.size ≡ size))
accepts_iff c' c begin size = (λ h. ground arith, λ h. ground arith)

rejects_iff :
    (c : ChunkInfo) (begin size : ℕ)
    → (none ≡ some c) ↔ ((none ≡ some c) × (c.offset ≡ begin) × (c.size ≡ size))
rejects_iff c begin size = (λ h. cc, λ h. h.0)

-- In a well-formed torrent, `chunk_info_from_received_data` answers with a chunk exactly if
-- `iter_chunk_infos` lists that chunk at place `begin / CHUNK_SIZE` and the chunk has the offset
-- and the size that were received.
pub chunk_info_from_received_data_iff :
    {l : Lengths}
    → IsValid l
    → (i begin size : ℕ) (c : ChunkInfo)
    → (chunk_info_from_received_data l i begin size ≡ some c) ↔ (
        (get_elem? (iter_chunk_infos l i) (begin / max_chunk_size) ≡ some c)
        × (c.offset ≡ begin)
        × (c.size ≡ size))
chunk_info_from_received_data_iff {l} v i begin size c =
    let k = begin / max_chunk_size in
    elim (dec_lt (k * max_chunk_size) (piece_length l i)) [
      | yes lt ↦
          rw (received_inside v i begin size lt, get_elem?-iter_chunk_infos v i k lt)
            (accepts_iff (nth_chunk l i k) c begin size)
      | no ge ↦
          rw (received_outside v i begin size (omega arith), get_elem?-past_end v i k (omega arith))
            (rejects_iff c begin size)
    ]

in_bounds_at :
    {l : Lengths}
    → IsValid l
    → (i k : ℕ) (c : ChunkInfo) → i ≤ l.last_piece_id
    → k * max_chunk_size < piece_length l i
    → some (nth_chunk l i k) ≡ some c
    → (c.piece_index ≡ i)
      × (c.offset + c.size ≤ piece_length l i)
      × (c.absolute_index ≡ (chunk_range l i).start + c.chunk_index)
      × (c.absolute_index < (chunk_range l i).end)
in_bounds_at {l} v i k c le lt e =
    let r = chunk_range-eq v i le in
    let n = chunks_per_piece-eq v i in
    ground (
      arith,
      chunks_per_piece-le v i,
      mul-le-mul_right {m = i} {n = l.last_piece_id} l.chunks_per_piece,
    )

-- In a well-formed torrent, a chunk that `chunk_info_from_received_data` accepts for a piece of the
-- torrent belongs to that piece, ends within it, and its absolute index is its index counted from
-- the start of the chunk range of the piece, inside that range.
pub received_in_bounds :
    {l : Lengths}
    → IsValid l
    → (i begin size : ℕ) {c : ChunkInfo} → i ≤ l.last_piece_id
    → chunk_info_from_received_data l i begin size ≡ some c
    → (c.piece_index ≡ i)
      × (c.offset + c.size ≤ piece_length l i)
      × (c.absolute_index ≡ (chunk_range l i).start + c.chunk_index)
      × (c.absolute_index < (chunk_range l i).end)
received_in_bounds {l} v i begin size {c} le e =
    let k = begin / max_chunk_size in
    let r = chunk_range-eq v i le in
    elim (dec_lt (k * max_chunk_size) (piece_length l i)) [
      | yes lt ↦ in_bounds_at v i k c le lt (
          sym (get_elem?-iter_chunk_infos v i k lt)
          ∙ ((chunk_info_from_received_data_iff v i begin size c).0 e).0)
      | no ge ↦ cc (e, received_outside v i begin size (omega arith))
    ]
