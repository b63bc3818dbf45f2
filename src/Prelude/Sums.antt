-- ===== src/Prelude/Sums.antt =====
-- Sums over a range of numbers.
use rust_torrent.Prelude.{ℕ, zero, suc, ◌+◌, ◌≤◌, ◌<◌, ◌≡◌, ◌≢◌, refl, arith}
use native.Mathlib.Decide.{dec_lt}

-- f start + f (start + 1) + …, `n` summands.
abbrev pub sum_range : (ℕ → ℕ) → ℕ → ℕ → ℕ
sum_range f start zero = 0
sum_range f start (suc n) = f start + sum_range f (start + 1) n

pub sum_range-congr :
    (f g : ℕ → ℕ) (start n : ℕ)
    → ((k : ℕ) → start ≤ k → k < start + n → f k ≡ g k)
    → sum_range f start n ≡ sum_range g start n
sum_range-congr f g start zero h = refl
sum_range-congr f g start (suc n) h = omega (
  arith,
  h start (omega arith) (omega arith),
  sum_range-congr f g (start + 1) n (λ k lo hi. h k (omega arith) (omega arith)),
)

pub sum_range_mono :
    (f g : ℕ → ℕ) (start n : ℕ) → ((k : ℕ) → f k ≤ g k) → sum_range f start n ≤ sum_range g start n
sum_range_mono f g start zero h = omega arith
sum_range_mono f g start (suc n) h = omega (arith, h start, sum_range_mono f g (start + 1) n h)

-- A change of one summand.
pub sum_range-bump :
    (f g : ℕ → ℕ) (d i start n : ℕ)
    → start ≤ i
    → i < start + n
    → g i ≡ f i + d
    → ((k : ℕ) → k ≢ i → g k ≡ f k)
    → sum_range g start n ≡ sum_range f start n + d
sum_range-bump f g d i start zero lo hi e h = absurd (omega arith)
sum_range-bump f g d i start (suc n) lo hi e h = elim (dec_lt start i) [
  | yes lt ↦ omega (
    arith,
    h start (omega arith),
    sum_range-bump f g d i (start + 1) n (omega arith) (omega arith) e h,
  )
  | no ge ↦
      let here : start ≡ i = omega arith in
      rw here (omega (arith, e, sum_range-congr g f (i + 1) n (λ k lo hi. h k (omega arith))))
]

pub sum_range-zero :
    (f : ℕ → ℕ) (start n i : ℕ) → sum_range f start n ≡ 0 → start ≤ i → i < start + n → f i ≡ 0
sum_range-zero f start zero i e lo hi = absurd (omega arith)
sum_range-zero f start (suc n) i e lo hi = elim (dec_lt start i) [
  | yes lt ↦ sum_range-zero f (start + 1) n i (omega arith) (omega arith) (omega arith)
  | no ge ↦ let here : i ≡ start = omega arith in rw here (omega arith)
]

pub sum_range-all_zero :
    (f : ℕ → ℕ) (start n : ℕ)
    → ((i : ℕ) → start ≤ i → i < start + n → f i ≡ 0)
    → sum_range f start n ≡ 0
sum_range-all_zero f start zero h = refl
sum_range-all_zero f start (suc n) h = omega (
  arith,
  h start (omega arith) (omega arith),
  sum_range-all_zero f (start + 1) n (λ i lo hi. h i (omega arith) (omega arith)),
)
