-- ===== src/Prelude/Sort.antt =====
-- A stable sort, and sums over a list, which tell what a list keeps when it is sorted or cut.
use rust_torrent.Prelude.{
  min, ℕ, zero, suc, ◌+◌, ◌≤◌, ◌≡◌, refl, Bool, Bool-cases, inl, inr, List, [], ◌∷◌, ◌++◌, length,
  take, keep_if, if◌then◌else◌, arith,
}

module _ {ℓ} {A : Type ℓ} where
  -- `sort_by_key`, by the order of the keys.
  unfoldable pub insert_by : (A → A → Bool) → A → List A → List A
  insert_by le x [] = x ∷ []
  insert_by le x (y ∷ ys) = if le x y then x ∷ y ∷ ys else y ∷ insert_by le x ys

  unfoldable pub sort_by : (A → A → Bool) → List A → List A
  sort_by le [] = []
  sort_by le (x ∷ xs) = insert_by le x (sort_by le xs)

  abbrev pub sum_by : (A → ℕ) → List A → ℕ
  sum_by f [] = 0
  sum_by f (x ∷ xs) = f x + sum_by f xs

  pub length-sum_by : (xs : List A) → length xs ≡ sum_by (λ x. 1) xs
  length-sum_by [] = refl
  length-sum_by (x ∷ xs) = omega (arith, length-sum_by xs)

  module _ (f : A → ℕ) where
    pub sum_by-insert_by :
        (le : A → A → Bool) (x : A) (xs : List A) → sum_by f (insert_by le x xs) ≡ f x + sum_by f xs
    unfolding insert_by
    sum_by-insert_by le x [] = refl
    sum_by-insert_by le x (y ∷ ys) = elim (Bool-cases (le x y)) [
      | inl t ↦ rw t refl
      | inr e ↦ rw e (omega (arith, sum_by-insert_by le x ys))
    ]

    pub sum_by-sort_by : (le : A → A → Bool) (xs : List A) → sum_by f (sort_by le xs) ≡ sum_by f xs
    unfolding sort_by
    sum_by-sort_by le [] = refl
    sum_by-sort_by le (x ∷ xs) =
        omega (arith, sum_by-insert_by le x (sort_by le xs), sum_by-sort_by le xs)

    pub sum_by-append : (xs ys : List A) → sum_by f (xs ++ ys) ≡ sum_by f xs + sum_by f ys
    sum_by-append [] ys = omega arith
    sum_by-append (x ∷ xs) ys = omega (arith, sum_by-append xs ys)

    pub sum_by-keep_if : (p : A → Bool) (xs : List A) → sum_by f (keep_if p xs) ≤ sum_by f xs
    sum_by-keep_if p [] = omega arith
    sum_by-keep_if p (x ∷ xs) = elim (Bool-cases (p x)) [
      | inl t ↦ rw t (omega (arith, sum_by-keep_if p xs))
      | inr e ↦ rw e (omega (arith, sum_by-keep_if p xs))
    ]

    pub sum_by-take : (n : ℕ) (xs : List A) → sum_by f (take n xs) ≤ sum_by f xs
    sum_by-take zero xs = omega arith
    sum_by-take (suc n) [] = omega arith
    sum_by-take (suc n) (x ∷ xs) = omega (arith, sum_by-take n xs)

  pub length-take : (n : ℕ) (xs : List A) → length (take n xs) ≡ min n (length xs)
  length-take zero xs = omega arith
  length-take (suc n) [] = omega arith
  length-take (suc n) (x ∷ xs) = omega (arith, length-take n xs)

  pub length-take_le : (n : ℕ) (xs : List A) → length (take n xs) ≤ n
  length-take_le zero xs = omega arith
  length-take_le (suc n) [] = omega arith
  length-take_le (suc n) (x ∷ xs) = omega (arith, length-take_le n xs)
