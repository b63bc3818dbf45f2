-- ===== src/Prelude/HashMap.antt =====
-- A `HashMap` with numbers for keys, as the list of its entries in the order in which it is iterated.
-- A new key may come anywhere in that order; here it comes first.
use rust_torrent.Prelude.{
  ℕ, ◌≡◌, refl, Bool, true, false, Option, none, some, List, [], ◌∷◌, ◌==◌, ==_refl, ==→eq,
  Bool-cases, ap, keep_if, inl, inr, if◌then◌else◌, arith,
}

module _ {ℓ} {V : Type ℓ} where
  abbrev pub find : ℕ → List (ℕ × V) → Option V
  find k [] = none
  find k ((j, v) ∷ m) = if j == k then some v else find k m

  abbrev pub contains_key : ℕ → List (ℕ × V) → Bool
  contains_key k m = elim (find k m) [ none ↦ false | some v ↦ true ]

  abbrev pub remove : ℕ → List (ℕ × V) → List (ℕ × V)
  remove k [] = []
  remove k ((j, v) ∷ m) = if j == k then remove k m else (j, v) ∷ remove k m

  abbrev pub replace_value : ℕ → V → List (ℕ × V) → List (ℕ × V)
  replace_value k v [] = []
  replace_value k v ((j, w) ∷ m) = if j == k then (j, v) ∷ m else (j, w) ∷ replace_value k v m

  abbrev pub insert : ℕ → V → List (ℕ × V) → List (ℕ × V)
  insert k v m = if contains_key k m then replace_value k v m else (k, v) ∷ m

  pub find-remove :
      (k j : ℕ) (m : List (ℕ × V)) → find j (remove k m) ≡ (if k == j then none else find j m)
  find-remove k j [] = ground arith
  find-remove k j ((i, v) ∷ m) = ground (arith, find-remove k j m)

  pub find-replace_value :
      (k j : ℕ) (v : V) (m : List (ℕ × V))
      → find j (replace_value k v m)
        ≡ (if k == j then (if contains_key k m then some v else none) else find j m)
  find-replace_value k j v [] = ground arith
  find-replace_value k j v ((i, w) ∷ m) = ground (arith, find-replace_value k j v m)

  pub find-insert :
      (k j : ℕ) (v : V) (m : List (ℕ × V))
      → find j (insert k v m) ≡ (if k == j then some v else find j m)
  find-insert k j v m = elim (Bool-cases (contains_key k m)) [
    | inl t ↦ rw (t, find-replace_value k j v m, t)
    | inr f ↦ rw f
  ]

  -- No key occurs twice.
  abbrev pub UniqueKeys : List (ℕ × V) → Type ℓ
  UniqueKeys [] = Unit
  UniqueKeys ((k, v) ∷ m) = (find k m ≡ none) × UniqueKeys m

  pub remove-UniqueKeys : (k : ℕ) (m : List (ℕ × V)) → UniqueKeys m → UniqueKeys (remove k m)
  remove-UniqueKeys k [] u = tt
  remove-UniqueKeys k ((j, v) ∷ m) u = elim (Bool-cases (j == k)) [
    | inl t ↦ rw t (remove-UniqueKeys k m u.1)
    | inr f ↦ rw f (ground (arith, find-remove k j m, u.0), remove-UniqueKeys k m u.1)
  ]

  pub replace_value-UniqueKeys :
      (k : ℕ) (v : V) (m : List (ℕ × V)) → UniqueKeys m → UniqueKeys (replace_value k v m)
  replace_value-UniqueKeys k v [] u = tt
  replace_value-UniqueKeys k v ((j, w) ∷ m) u = elim (Bool-cases (j == k)) [
    | inl t ↦ rw t u
    | inr f ↦ rw f (absent_replace k j v m f u.0, replace_value-UniqueKeys k v m u.1)
  ]
    where
      absent_replace :
          (k j : ℕ) (v : V) (m : List (ℕ × V))
          → (j == k) ≡ false
          → find j m ≡ none
          → find j (replace_value k v m) ≡ none
      absent_replace k j v m f e = ground (arith, find-replace_value k j v m)

  pub find-absent : (k : ℕ) (m : List (ℕ × V)) → contains_key k m ≡ false → find k m ≡ none
  find-absent k m h = ground arith

  pub insert-UniqueKeys :
      (k : ℕ) (v : V) (m : List (ℕ × V)) → UniqueKeys m → UniqueKeys (insert k v m)
  insert-UniqueKeys k v m u =
      if-UniqueKeys (contains_key k m) _ _ (replace_value-UniqueKeys k v m u)
        (λ absent. (find-absent k m absent, u))
    where
      if-UniqueKeys :
          (b : Bool) (x y : List (ℕ × V))
          → UniqueKeys x
          → (b ≡ false → UniqueKeys y)
          → UniqueKeys (if b then x else y)
      if-UniqueKeys true x y ux uy = ux
      if-UniqueKeys false x y ux uy = uy refl

  -- A predicate of all entries.
  abbrev pub AllEntries {κ} : (ℕ → V → Type κ) → List (ℕ × V) → Type κ
  AllEntries P [] = Unit
  AllEntries P ((k, v) ∷ m) = P k v × AllEntries P m

  pub AllEntries-map {κ μ} :
      (P : ℕ → V → Type κ) (Q : ℕ → V → Type μ)
      → ((k : ℕ) (v : V) → P k v → Q k v)
      → (m : List (ℕ × V)) → AllEntries P m
      → AllEntries Q m
  AllEntries-map P Q f [] a = tt
  AllEntries-map P Q f ((k, v) ∷ m) a = (f k v a.0, AllEntries-map P Q f m a.1)

  pub AllEntries-keep_if {κ} :
      (P : ℕ → V → Type κ) (f : ℕ × V → Bool) (m : List (ℕ × V))
      → AllEntries P m
      → AllEntries (λ k v. P k v × (f (k, v) ≡ true)) (keep_if f m)
  AllEntries-keep_if P f [] a = tt
  AllEntries-keep_if P f ((k, v) ∷ m) a = elim (Bool-cases (f (k, v))) [
    | inl t ↦ rw t ((a.0, t), AllEntries-keep_if P f m a.1)
    | inr n ↦ rw n (AllEntries-keep_if P f m a.1)
  ]

  -- With unique keys, `find` finds every entry.
  pub AllEntries-find : (m : List (ℕ × V)) → UniqueKeys m → AllEntries (λ k v. find k m ≡ some v) m
  AllEntries-find [] u = tt
  AllEntries-find ((k, v) ∷ m) u = (
    rw (==_refl k),
    AllEntries-map (λ j w. find j m ≡ some w) _ (λ j w e. other_key k j v w m u.0 e) m
        (AllEntries-find m u.1),
  )
    where
      other_key :
          (k j : ℕ) (v w : V) (m : List (ℕ × V))
          → find k m ≡ none
          → find j m ≡ some w
          → (if k == j then some v else find j m) ≡ some w
      other_key k j v w m e h = elim (Bool-cases (k == j)) [
        | inl t ↦ cc (e, h, ap (λ i. find i m) (==→eq k j t))
        | inr f ↦ rw f h
      ]
