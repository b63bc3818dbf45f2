-- ===== src/Prelude/Members.antt =====
-- Membership in a list of numbers, as a Boolean.
use rust_torrent.Prelude.{
  ℕ, zero, suc, ◌+◌, ◌≡◌, ap, Bool, true, false, ◌&&◌, ◌||◌, List, [], ◌∷◌, ◌==◌, ==→eq, ltb, leb,
  keep_if, range_from, Bool-cases, inl, inr, arith,
}

abbrev pub member : ℕ → List ℕ → Bool
member j [] = false
member j (x ∷ xs) = j == x || member j xs

-- Equal numbers pass the same tests.
ap_test : (p : ℕ → Bool) (j x : ℕ) → (j == x) ≡ true → p j ≡ p x
ap_test p j x t = ap p (==→eq j x t)

pub member-keep_if :
    (p : ℕ → Bool) (j : ℕ) (xs : List ℕ) → member j (keep_if p xs) ≡ (p j && member j xs)
member-keep_if p j [] = ground arith
member-keep_if p j (x ∷ xs) = elim (Bool-cases (p x)) [
  | inl keep ↦ rw keep (ground (arith, ap_test p j x, member-keep_if p j xs))
  | inr drop ↦ rw drop (ground (arith, ap_test p j x, member-keep_if p j xs))
]

pub member-range_from : (j s n : ℕ) → member j (range_from s n) ≡ (leb s j && ltb j (s + n))
member-range_from j s zero = ground arith
member-range_from j s (suc n) = ground (arith, member-range_from j (s + 1) n)
