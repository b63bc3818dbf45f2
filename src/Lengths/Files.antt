-- ===== src/Lengths/Files.antt =====
-- The bytes of a file, piece by piece.
use rust_torrent.Prelude.{ℕ, zero, suc, ◌+◌, ◌*◌, ◌≤◌, ◌<◌, ◌≡◌, min, max, u32_mod, u64_mod, arith}
use rust_torrent.Prelude.Sums.{sum_range}
use rust_torrent.Lengths.{Lengths, size_of_piece_in_file}
use rust_torrent.Lengths.Valid.{IsValid}
use native.Mathlib.Nat.{mul-le-mul_right}

-- A position moved into the file's bytes.
abbrev clip : ℕ → ℕ → ℕ → ℕ
clip lo hi x = min (max x lo) hi

module _ {l : Lengths} (v : IsValid l) (off len : ℕ) (fits : off + len < u64_mod) where
  size_of_piece-eq :
      (p : ℕ)
      → p < u32_mod
      → size_of_piece_in_file l p off len + clip off (off + len) (p * l.piece_length)
        ≡ clip off (off + len) ((p + 1) * l.piece_length)
  unfolding size_of_piece_in_file
  size_of_piece-eq p h = omega (
    arith,
    mul-le-mul_right {m = p + 1} {n = u32_mod} l.piece_length (omega arith),
    v.piece_bound,
  )

  sum_range-telescope :
      (p n : ℕ)
      → p + n ≤ u32_mod
      → sum_range (λ k. size_of_piece_in_file l k off len) p n
          + clip off (off + len) (p * l.piece_length)
        ≡ clip off (off + len) ((p + n) * l.piece_length)
  sum_range-telescope p zero h = omega arith
  sum_range-telescope p (suc n) h =
      omega (arith, size_of_piece-eq p (omega arith), sum_range-telescope (p + 1) n (omega arith))

  -- In a well-formed torrent, for a file whose end has 64 bits and a range of pieces with 32-bit
  -- numbers that spans the file, the results of `size_of_piece_in_file` over the range add up to
  -- the length of the file.
  pub sum_size_of_piece_in_file :
      (p n : ℕ)
      → p + n ≤ u32_mod
      → p * l.piece_length ≤ off
      → off + len ≤ (p + n) * l.piece_length
      → sum_range (λ k. size_of_piece_in_file l k off len) p n ≡ len
  sum_size_of_piece_in_file p n h lo hi = omega (arith, sum_range-telescope p n h)
