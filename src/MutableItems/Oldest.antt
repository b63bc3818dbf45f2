-- ===== src/MutableItems/Oldest.antt =====
-- The item that is evicted is the oldest one, and the loop ends with the newest ones.
use rust_torrent.Prelude.{
  ℕ, zero, suc, ◌+◌, ◌≤◌, ◌<◌, ◌≡◌, min, refl, sym, ◌∙◌, ap, inl, inr, false, Bool-cases, none,
  some, List, [], ◌∷◌, length, ltb, ◌==◌, ==_refl, ==→eq, arith,
}
use rust_torrent.Prelude.HashMap.{find, remove, find-remove, UniqueKeys, remove-UniqueKeys}
use rust_torrent.MutableItems.{StoredMutableItem, oldest_key_from, evict_oldest, collect_loop}

-- No item is older.
abbrev pub IsOldest : StoredMutableItem → List (ℕ × StoredMutableItem) → Type 0
IsOldest i m = (j : ℕ) (w : StoredMutableItem) → find j m ≡ some w → i.last_updated ≤ w.last_updated

found-apart :
    (j k : ℕ) (w : StoredMutableItem) (m : List (ℕ × StoredMutableItem))
    → find j m ≡ none
    → find k m ≡ some w
    → (j == k) ≡ false
found-apart j k w m a b = elim (Bool-cases (j == k)) [
  | inl t ↦ cc (a, b, ap (λ (x : ℕ). find x m) (==→eq j k t))
  | inr f ↦ f
]

-- An item more is at the front.
cons-IsOldest :
    (i w : StoredMutableItem) (k : ℕ) (m : List (ℕ × StoredMutableItem))
    → w.last_updated ≤ i.last_updated
    → IsOldest w m
    → IsOldest w ((k, i) ∷ m)
cons-IsOldest i w k m le o j x e = elim (Bool-cases (k == j)) [
  | inl t ↦
      let same : i ≡ x = cc (rw t at e) in
      omega (arith, le, ap (λ (y : StoredMutableItem). y.last_updated) same)
  | inr f ↦ o j x (rw f at e)
]

find-front :
    (k : ℕ) (i : StoredMutableItem) (m : List (ℕ × StoredMutableItem))
    → find k ((k, i) ∷ m) ≡ some i
find-front k i m = rw (==_refl k) refl

oldest_key_from-IsOldest :
    (m : List (ℕ × StoredMutableItem)) (k : ℕ) (i : StoredMutableItem)
    → find k m ≡ none
    → UniqueKeys m
    → (w : StoredMutableItem) × (find (oldest_key_from k i.last_updated m) ((k, i) ∷ m) ≡ some w)
      × (w.last_updated ≤ i.last_updated)
      × IsOldest w m
oldest_key_from-IsOldest [] k i a u = (i, find-front k i [], omega arith, λ j x e. cc)
oldest_key_from-IsOldest ((j, x) ∷ m) k i a u =
    elim (Bool-cases (ltb x.last_updated i.last_updated)) [
      | inl older ↦
          let (w, found, le, o) = oldest_key_from-IsOldest m j x u.0 u.1 in
          let apart = found-apart k (oldest_key_from j x.last_updated m) w ((j, x) ∷ m) a found in
          let chosen : oldest_key_from k i.last_updated ((j, x) ∷ m)
              ≡ oldest_key_from j x.last_updated m =
            rw older refl in
          (
            w,
            at_chosen chosen (skip (oldest_key_from j x.last_updated m) w apart found),
            ground (arith, older, le),
            cons-IsOldest x w j m le o,
          )
      | inr newer ↦
          let absent : find k m ≡ none = ground (arith, a) in
          let (w, found, le, o) = oldest_key_from-IsOldest m k i absent u.1 in
          let chosen : oldest_key_from k i.last_updated ((j, x) ∷ m)
              ≡ oldest_key_from k i.last_updated m =
            rw newer refl in
          (
            w,
            at_chosen chosen (behind (oldest_key_from k i.last_updated m) w found),
            le,
            cons-IsOldest x w j m (ground (arith, newer, le)) o,
          )
    ]
  where
    at_chosen :
        {o o' : ℕ} {w : StoredMutableItem}
        → o ≡ o'
        → find o' ((k, i) ∷ (j, x) ∷ m) ≡ some w
        → find o ((k, i) ∷ (j, x) ∷ m) ≡ some w
    at_chosen e f = ap (λ (y : ℕ). find y ((k, i) ∷ (j, x) ∷ m)) e ∙ f

    skip :
        (o : ℕ) (w : StoredMutableItem)
        → (k == o) ≡ false
        → find o ((j, x) ∷ m) ≡ some w
        → find o ((k, i) ∷ (j, x) ∷ m) ≡ some w
    skip o w apart e = rw apart e

    behind :
        (o : ℕ) (w : StoredMutableItem)
        → find o ((k, i) ∷ m) ≡ some w
        → find o ((k, i) ∷ (j, x) ∷ m) ≡ some w
    behind o w e = elim (Bool-cases (k == o)) [
      | inl t ↦ rw t (rw t at e)
      | inr f ↦ rw (f, found-apart j o w m u.0 (rw f at e)) (rw f at e)
    ]

-- What is evicted is there, and no item is older.
pub evict_oldest-IsOldest :
    (m : List (ℕ × StoredMutableItem))
    → UniqueKeys m
    → 0 < length m
    → (o : ℕ) × (w : StoredMutableItem) × (find o m ≡ some w)
      × IsOldest w m
      × (evict_oldest m ≡ remove o m)
unfolding evict_oldest
evict_oldest-IsOldest [] u h = absurd (omega arith)
evict_oldest-IsOldest ((k, i) ∷ m) u h =
    let (w, found, le, o) = oldest_key_from-IsOldest m k i u.0 u.1 in
    (oldest_key_from k i.last_updated m, w, found, cons-IsOldest i w k m le o, refl)

length-remove_absent :
    {A : Type 0} (k : ℕ) (m : List (ℕ × A)) → find k m ≡ none → length (remove k m) ≡ length m
length-remove_absent k [] a = refl
length-remove_absent k ((j, x) ∷ m) a = elim (Bool-cases (j == k)) [
  | inl t ↦ cc (rw t at a)
  | inr f ↦ rw f (ap suc (length-remove_absent k m (rw f at a)))
]

pub length-remove_found :
    {A : Type 0} (k : ℕ) (m : List (ℕ × A)) {w : A}
    → UniqueKeys m
    → find k m ≡ some w
    → length (remove k m) + 1 ≡ length m
length-remove_found k [] u e = cc
length-remove_found k ((j, x) ∷ m) u e = elim (Bool-cases (j == k)) [
  | inl t ↦
      let absent : find k m ≡ none = ap (λ (y : ℕ). find y m) (sym (==→eq j k t)) ∙ u.0 in
      rw t (omega (arith, length-remove_absent k m absent))
  | inr f ↦ rw f (omega (arith, length-remove_found k m u.1 (rw f at e)))
]

-- What the loop leaves: the newest items, not more than the maximum.
pub record IsKept (max : ℕ) (before after : List (ℕ × StoredMutableItem)) : Type 0 where
  pub unique : UniqueKeys after
  pub few : length after ≡ min (length before) max
  pub kept : (k : ℕ) (w : StoredMutableItem) → find k after ≡ some w → find k before ≡ some w
  pub newest :
      (k : ℕ) (w : StoredMutableItem)
      → find k before ≡ some w
      → find k after ≡ none
      → IsOldest w after

pub collect_loop-IsKept :
    (fuel max : ℕ) (m : List (ℕ × StoredMutableItem))
    → UniqueKeys m
    → length m ≤ fuel
    → IsKept max m (collect_loop fuel max m)
unfolding collect_loop
collect_loop-IsKept zero max m u h = record {
  unique = u;
  few = omega (arith, h);
  kept = λ k w e. e;
  newest = λ k w e a. cc (e, a);
}
collect_loop-IsKept (suc fuel) max m u h = elim (Bool-cases (ltb max (length m))) [
  | inr enough ↦
      rw (collect_loop, enough)
        (record {
          unique = u;
          few = ground (arith, enough);
          kept = λ k w e. e;
          newest = λ k w e a. cc (e, a);
        })
  | inl many ↦
      let (o, w, found, oldest, eq) = evict_oldest-IsOldest m u (ground (arith, many)) in
      let len = length-remove_found o m u found in
      let r =
        collect_loop-IsKept fuel max (remove o m) (remove-UniqueKeys o m u)
          (omega (arith, h, len)) in
      rw (collect_loop, many, eq)
        (record {
          unique = r.unique;
          few = ground (arith, many, r.few, len);
          kept = λ k x e. still k o m x (r.kept k x e);
          newest = λ k x e a. older k o m x w _ r found oldest e a;
        })
]
  where
    still :
        (k o : ℕ) (m : List (ℕ × StoredMutableItem)) (x : StoredMutableItem)
        → find k (remove o m) ≡ some x
        → find k m ≡ some x
    still k o m x e = ground (arith, find-remove o k m, e)

    older :
        (k o : ℕ) (m : List (ℕ × StoredMutableItem)) (x w : StoredMutableItem)
        (after : List (ℕ × StoredMutableItem))
        → IsKept max (remove o m) after
        → find o m ≡ some w
        → IsOldest w m
        → find k m ≡ some x
        → find k after ≡ none
        → IsOldest x after
    older k o m x w after r found oldest e a = elim (Bool-cases (o == k)) [
      | inl t ↦ λ j y e'.
          let same : x ≡ w = cc (e, found, ap (λ (z : ℕ). find z m) (==→eq o k t)) in
          omega (
            arith,
            ap (λ (z : StoredMutableItem). z.last_updated) same,
            oldest j y (still j o m y (r.kept j y e')),
          )
      | inr f ↦ r.newest k x (find-remove o k m ∙ rw f e) a
    ]
