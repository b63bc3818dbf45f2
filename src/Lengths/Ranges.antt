-- ===== src/Lengths/Ranges.antt =====
-- The chunk numbers of the pieces.
use rust_torrent.Prelude.{
  ℕ, ◌+◌, ◌*◌, ◌≤◌, ◌<◌, ◌≡◌, ap, ◌==◌, ltb, leb, ◌&&◌, ◌/◌, div_ceil, arith,
}
use rust_torrent.Constants.{max_chunk_size}
use rust_torrent.Lengths.{Lengths, chunks_per_piece, chunk_range, total_chunks, piece_length}
use rust_torrent.Lengths.Valid.{IsValid, chunks_pos}
use rust_torrent.Prelude.Division.{div_parts, div-le_iff}
use rust_torrent.Lengths.Chunks.{chunks_per_piece-eq}
use native.Mathlib.Nat.{mul-le-mul_right}
use native.Mathlib.Decide.{dec_lt}

div_ceil_mono : (a b : ℕ) → a ≤ b → div_ceil a max_chunk_size ≤ div_ceil b max_chunk_size
div_ceil_mono a b h = ground arith

div_ceil_pos : (a : ℕ) → 0 < a → 0 < div_ceil a max_chunk_size
div_ceil_pos a h = ground arith

piece_length-le : {l : Lengths} → IsValid l → (i : ℕ) → piece_length l i ≤ l.piece_length
unfolding piece_length
piece_length-le v i = ground arith

piece_length-pos : {l : Lengths} → IsValid l → (i : ℕ) → 0 < piece_length l i
unfolding piece_length
piece_length-pos v i = ground arith

pub chunks_per_piece-le :
    {l : Lengths} → IsValid l → (i : ℕ) → chunks_per_piece l i ≤ l.chunks_per_piece
chunks_per_piece-le {l} v i = omega (
  arith,
  chunks_per_piece-eq v i,
  v.chunks,
  div_ceil_mono (piece_length l i) l.piece_length (piece_length-le v i),
)

pub chunks_per_piece-pos : {l : Lengths} → IsValid l → (i : ℕ) → 0 < chunks_per_piece l i
chunks_per_piece-pos {l} v i =
    rw (chunks_per_piece-eq v i) (div_ceil_pos (piece_length l i) (piece_length-pos v i))

-- No multiplication or addition of `chunk_range` wraps at a piece of the torrent.
pub chunk_range-eq :
    {l : Lengths}
    → IsValid l
    → (i : ℕ) → i ≤ l.last_piece_id
    → ((chunk_range l i).start ≡ i * l.chunks_per_piece)
      × ((chunk_range l i).end ≡ i * l.chunks_per_piece + chunks_per_piece l i)
unfolding chunk_range
chunk_range-eq {l} v i h =
    omega (arith, chunks_per_piece-le v i, mul-le-mul_right l.chunks_per_piece h)

pub total_chunks-eq :
    {l : Lengths}
    → IsValid l
    → total_chunks l ≡ l.last_piece_id * l.chunks_per_piece + chunks_per_piece l l.last_piece_id
unfolding total_chunks
total_chunks-eq {l} v = omega (arith, chunks_per_piece-le v l.last_piece_id)

chunks_below :
    {l : Lengths}
    → IsValid l
    → (j : ℕ) → j ≤ l.last_piece_id
    → j * l.chunks_per_piece + chunks_per_piece l j
      ≤ l.last_piece_id * l.chunks_per_piece + chunks_per_piece l l.last_piece_id
chunks_below {l} v j le = elim (dec_lt j l.last_piece_id) [
  | yes lt ↦ omega (
    arith,
    chunks_per_piece-le v j,
    mul-le-mul_right {m = j + 1} {n = l.last_piece_id} l.chunks_per_piece (omega arith),
  )
  | no ge ↦ let e : j ≡ l.last_piece_id = omega arith in rw e (omega arith)
]

-- A piece of the torrent has a chunk, and its chunks lie below `total_chunks`.
pub chunk_range_inside :
    {l : Lengths}
    → IsValid l
    → (i : ℕ) → i ≤ l.last_piece_id
    → ((chunk_range l i).start < (chunk_range l i).end) × ((chunk_range l i).end ≤ total_chunks l)
chunk_range_inside {l} v i h =
    omega
      (arith, chunk_range-eq v i h, chunks_per_piece-pos v i, total_chunks-eq v, chunks_below v i h)

-- In a well-formed torrent, for a piece before another of its pieces, both chunk ranges hold a
-- chunk, the first ends before the second starts, and the second ends within `total_chunks`.
pub chunk_range_order :
    {l : Lengths}
    → IsValid l
    → (i j : ℕ) → i < j
    → j ≤ l.last_piece_id
    → ((chunk_range l i).start < (chunk_range l i).end)
      × ((chunk_range l i).end ≤ (chunk_range l j).start)
      × ((chunk_range l j).start < (chunk_range l j).end)
      × ((chunk_range l j).end ≤ total_chunks l)
chunk_range_order {l} v i j lt le =
    let a = chunk_range_inside v i (omega arith) in
    let b = chunk_range_inside v j le in
    (
      a.0,
      omega (
        arith,
        chunk_range-eq v i (omega arith),
        chunk_range-eq v j le,
        chunks_per_piece-le v i,
        mul-le-mul_right {m = i + 1} {n = j} l.chunks_per_piece (omega arith),
      ),
      b.0,
      b.1,
    )

chunks_per_piece-inner :
    (l : Lengths) (i : ℕ) → i < l.last_piece_id → chunks_per_piece l i ≡ l.chunks_per_piece
unfolding chunks_per_piece
chunks_per_piece-inner l i h = ground arith

-- In a well-formed torrent, a chunk below `total_chunks` is one of the `chunks_per_piece` chunks
-- from `i` times the default count on, for a piece `i` of the torrent, exactly if `i` is the
-- quotient of the chunk number by the default count.
pub chunk_owner :
    {l : Lengths}
    → IsValid l
    → (i c : ℕ) → i ≤ l.last_piece_id
    → c < total_chunks l
    → (leb (i * l.chunks_per_piece) c && ltb c (i * l.chunks_per_piece + chunks_per_piece l i))
      ≡ (i == c / l.chunks_per_piece)
chunk_owner {l} v i c h lt =
    let cpp = l.chunks_per_piece in
    let q = c / cpp in
    let d = div_parts c cpp (chunks_pos v) in
    elim (dec_lt q i) [
      | yes before ↦ ground (arith, mul-le-mul_right {m = q + 1} {n = i} cpp)
      | no ge ↦ elim (dec_lt i q) [
        | yes after ↦
            ground (arith, mul-le-mul_right {m = i + 1} {n = q} cpp, chunks_per_piece-le v i)
        | no le ↦
            let e : q ≡ i = omega arith in
            ground (arith, total_chunks-eq v, chunks_per_piece-inner l i, ap (λ k. k * cpp) e)
      ]
    ]

pub chunk_piece_in :
    {l : Lengths}
    → IsValid l
    → (c : ℕ) → c < total_chunks l
    → c / l.chunks_per_piece ≤ l.last_piece_id
chunk_piece_in {l} v c lt =
    (div-le_iff c l.last_piece_id l.chunks_per_piece (chunks_pos v)).1
      (omega (arith, total_chunks-eq v, chunks_per_piece-le v l.last_piece_id))
