-- ===== src/Lengths/Valid.antt =====
-- The well-formedness of `Lengths`, and `Lengths::new`.
use rust_torrent.Prelude.{
  ℕ, zero, suc, ◌+◌, ◌-◌, ◌*◌, ◌/◌, ◌%◌, ◌≤◌, ◌<◌, ◌≡◌, refl, ◌==◌, if◌then◌else◌, u32_mod, u64_mod,
  as_u32, sub_u32, div_ceil, arith,
}
use rust_torrent.Constants.{max_chunk_size}
use rust_torrent.Lengths.{Lengths, ok, new, last_element_size}
use native.Mathlib.Nat.{div-add-mod', mod-lt, mul-le-mul_left}

-- The pieces are not empty, make up the torrent, and pieces and chunks have 32-bit numbers.
pub record IsValid (l : Lengths) : Type 0 where
  pub piece_pos : 0 < l.piece_length
  pub piece_bound : l.piece_length < u32_mod
  pub last_pos : 0 < l.last_piece_length
  pub last_le : l.last_piece_length ≤ l.piece_length
  pub covers : l.last_piece_id * l.piece_length + l.last_piece_length ≡ l.total_length
  pub total_bound : l.total_length < u64_mod
  pub chunks : l.chunks_per_piece ≡ div_ceil l.piece_length max_chunk_size
  pub chunks_bound : (l.last_piece_id + 1) * l.chunks_per_piece < u32_mod

-- A positive number cut at `p`: full parts, and a last one that is not empty.
split_last_at :
    (q r t p : ℕ)
    → q * p + r ≡ t
    → r < p
    → 0 < t
    → (((if r == 0 then q else q + 1) - 1) * p + (if r == 0 then p else r) ≡ t)
      × (0 < (if r == 0 then p else r))
      × ((if r == 0 then p else r) ≤ p)
      × (0 < (if r == 0 then q else q + 1))
split_last_at zero r t p e lt pos = ground arith
split_last_at (suc q) r t p e lt pos = ground arith

pub split_last :
    (t p : ℕ)
    → 0 < t
    → 0 < p
    → ((div_ceil t p - 1) * p + last_element_size t p ≡ t)
      × (0 < last_element_size t p)
      × (last_element_size t p ≤ p)
      × (0 < div_ceil t p)
split_last t p ht hp = split_last_at (t / p) (t % p) t p (div-add-mod' t p) (mod-lt t hp) ht

pub div_ceil_chunk_pos : (p : ℕ) → 0 < p → 0 < div_ceil p max_chunk_size
div_ceil_chunk_pos p h = ground arith

-- A product of positive numbers is not below its first factor.
pub le_mul_pos : (a b : ℕ) → 0 < b → a ≤ a * b
le_mul_pos a b h = omega (arith, mul-le-mul_left a h)

-- The record that `new` builds, over its parts: the number of pieces, the last one's length, and
-- the chunks of a piece.
built : ℕ → ℕ → ℕ → ℕ → ℕ → Lengths
built t p n last c = record {
  total_length = t;
  piece_length = p;
  last_piece_id = sub_u32 (as_u32 n) 1;
  last_piece_length = as_u32 last;
  chunks_per_piece = as_u32 c;
}

built-IsValid :
    (t p n last c : ℕ)
    → t < u64_mod
    → p < u32_mod
    → ((n - 1) * p + last ≡ t) × (0 < last) × (last ≤ p) × (0 < n)
    → 0 < c
    → c ≡ div_ceil p max_chunk_size
    → n * c < u32_mod
    → IsValid (built t p n last c)
unfolding built
built-IsValid t p n last c tb pb (e, pos, le, npos) cpos ce cb =
    let n_le = le_mul_pos n c cpos in
    let c_le = le_mul_pos c n npos in
    let last_id : sub_u32 (as_u32 n) 1 ≡ n - 1 = omega arith in
    let last_len : as_u32 last ≡ last = omega arith in
    let chunks_eq : as_u32 c ≡ c = omega arith in
    let count : n - 1 + 1 ≡ n = omega arith in
    rw (last_id, last_len, chunks_eq)
      (record {
        piece_pos = omega arith;
        piece_bound = pb;
        last_pos = pos;
        last_le = le;
        covers = e;
        total_bound = tb;
        chunks = ce;
        chunks_bound = rw count cb;
      })

-- For a total length that is positive and has 64 bits, a piece length that is positive and has 32
-- bits, and fewer than 2 ^ 32 chunks when each piece counts as a full one, `Lengths::new` succeeds,
-- keeps both lengths, and gives a well-formed value.
pub new-IsValid :
    (t p : ℕ)
    → 0 < t
    → t < u64_mod
    → 0 < p
    → p < u32_mod
    → div_ceil t p * div_ceil p max_chunk_size < u32_mod
    → (l : Lengths) × (new t p ≡ ok l) × (l.total_length ≡ t) × (l.piece_length ≡ p) × IsValid l
unfolding new built
new-IsValid t p ht tb hp pb cb =
    let n = div_ceil t p in
    let c = div_ceil p max_chunk_size in
    let parts = split_last t p ht hp in
    let cpos = div_ceil_chunk_pos p hp in
    (
      built t p n (last_element_size t p) c,
      ground arith,
      refl,
      refl,
      built-IsValid t p n (last_element_size t p) c tb pb parts cpos refl cb,
    )

pub chunks_pos : {l : Lengths} → IsValid l → 0 < l.chunks_per_piece
chunks_pos {l} v = rw v.chunks (div_ceil_chunk_pos l.piece_length v.piece_pos)

-- Piece numbers fit in 32 bits.
pub ids_bound : {l : Lengths} → IsValid l → l.last_piece_id + 1 < u32_mod
ids_bound {l} v = omega (arith, le_mul_pos (l.last_piece_id + 1) l.chunks_per_piece (chunks_pos v))
