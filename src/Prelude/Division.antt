-- ===== src/Prelude/Division.antt =====
-- Orders between quotients, and sizes of products.
use rust_torrent.Prelude.{
  ℕ, ◌+◌, ◌*◌, ◌/◌, ◌%◌, ◌≤◌, ◌<◌, ◌≡◌, ◌↔◌, inl, inr, Bool-cases, ◌==◌, ==→eq, div_ceil,
  if◌then◌else◌, arith,
}
use native.Mathlib.Nat.{div-add-mod', mod-lt, mul-le-mul_right, div-lt_iff_lt-mul}
use native.Mathlib.Decide.{dec_lt}

-- Factors are told apart by their products.
pub lt_of_mul-lt : (a b d : ℕ) → a * d < b * d → a < b
lt_of_mul-lt a b d h = elim (dec_lt a b) [
  | yes lt ↦ lt
  | no ge ↦ absurd (omega (arith, mul-le-mul_right {m = b} {n = a} d (omega arith)))
]

round_up_iff : (p q r d : ℕ) → r < d → (p < (if r == 0 then q else q + 1)) ↔ (p * d < q * d + r)
round_up_iff p q r d h = (
  λ lt. elim (Bool-cases (r == 0)) [
    | inl t ↦ omega (arith, mul-le-mul_right {m = p + 1} {n = q} d (ground arith))
    | inr f ↦ ground (arith, mul-le-mul_right {m = p} {n = q} d)
  ],
  λ lt. elim (dec_lt p q) [
    | yes below ↦ ground arith
    | no ge ↦ elim (Bool-cases (r == 0)) [
      | inl t ↦
          absurd (omega (arith, ==→eq r 0 t, mul-le-mul_right {m = q} {n = p} d (omega arith)))
      | inr f ↦ rw f (lt_of_mul-lt p (q + 1) d (omega arith))
    ]
  ],
)

pub lt-div_ceil_iff : (p x d : ℕ) → 0 < d → (p < div_ceil x d) ↔ (p * d < x)
lt-div_ceil_iff p x d h = rw (div-add-mod' x d) at (round_up_iff p (x / d) (x % d) d (mod-lt x h))

pub div-le_iff : (x p d : ℕ) → 0 < d → (x / d ≤ p) ↔ (x < (p + 1) * d)
div-le_iff x p d h = (
  λ le. (div-lt_iff_lt-mul h).0 (omega arith),
  λ lt. omega (arith, (div-lt_iff_lt-mul {x = x} {y = p + 1} h).1 lt),
)

-- A quotient and its remainder.
pub div_parts : (x d : ℕ) → 0 < d → (x / d * d + x % d ≡ x) × (x % d < d)
div_parts x d h = (div-add-mod' x d, mod-lt x h)
