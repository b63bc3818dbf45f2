-- ===== src/PeerStore/Evict.antt =====
-- The eviction of the oldest peers when there are too many.
use rust_torrent.Prelude.{
  ℕ, ◌+◌, ◌≤◌, ◌≡◌, refl, sym, ◌∙◌, ap, ◌⊎◌, inl, inr, Bool-cases, none, some, List, [], ◌∷◌,
  length, ltb, ◌==◌, ==→eq, ==_refl, if◌then◌else◌, arith,
}
use mathlib.Core.Option.{some-injective}
use rust_torrent.Prelude.Sort.{sum_by}
use rust_torrent.Prelude.HashMap.{
  find, remove, replace_value, find-remove, find-replace_value, UniqueKeys,
}
use rust_torrent.PeerStore.{StoredPeer, total_len, evict_from}

-- The peers of one list are among those of another, as often at most.
abbrev pub Fewer : List StoredPeer → List StoredPeer → Type 0
Fewer xs ys = (f : StoredPeer → ℕ) → sum_by f xs ≤ sum_by f ys

abbrev pub peers_at : ℕ → List (ℕ × List StoredPeer) → List StoredPeer
peers_at k m = elim (find k m) [ none ↦ [] | some ps ↦ ps ]

pub peers_at-remove :
    (k j : ℕ) (m : List (ℕ × List StoredPeer))
    → peers_at j (remove k m) ≡ (if k == j then [] else peers_at j m)
peers_at-remove k j m = elim (Bool-cases (k == j)) [
  | inl t ↦ rw (peers_at, find-remove k j m, t)
  | inr f ↦ rw (peers_at, find-remove k j m, f)
]

pub peers_at-replace_value :
    (k j : ℕ) (v : List StoredPeer) (m : List (ℕ × List StoredPeer)) {old : List StoredPeer}
    → find k m ≡ some old
    → peers_at j (replace_value k v m) ≡ (if k == j then v else peers_at j m)
peers_at-replace_value k j v m h = elim (Bool-cases (k == j)) [
  | inl t ↦ rw (peers_at, find-replace_value k j v m, t, h)
  | inr f ↦ rw (peers_at, find-replace_value k j v m, f)
]

pub total_len-replace_value :
    (k : ℕ) (v : List StoredPeer) (m : List (ℕ × List StoredPeer)) {old : List StoredPeer}
    → find k m ≡ some old
    → total_len (replace_value k v m) + length old ≡ total_len m + length v
total_len-replace_value k v [] h = cc
total_len-replace_value k v ((j, w) ∷ m) {old} h = elim (Bool-cases (j == k)) [
  | inl t ↦
      let same : w ≡ old = some-injective _ _ (rw t at h) in
      rw t (omega (arith, ap (λ (l : List StoredPeer). length l) same))
  | inr f ↦ rw f (omega (arith, total_len-replace_value k v m (rw f at h)))
]

remove_absent : (k : ℕ) (m : List (ℕ × List StoredPeer)) → find k m ≡ none → remove k m ≡ m
remove_absent k [] h = refl
remove_absent k ((j, w) ∷ m) h = elim (Bool-cases (j == k)) [
  | inl t ↦ cc (rw t at h)
  | inr f ↦
      rw f (ap (λ (r : List (ℕ × List StoredPeer)). (j, w) ∷ r) (remove_absent k m (rw f at h)))
]

pub total_len-remove :
    (k : ℕ) (m : List (ℕ × List StoredPeer))
    → UniqueKeys m
    → total_len (remove k m) + length (peers_at k m) ≡ total_len m
total_len-remove k [] u = refl
total_len-remove k ((j, w) ∷ m) u = elim (Bool-cases (j == k)) [
  | inl t ↦
      let absent : find k m ≡ none = ap (λ (i : ℕ). find i m) (sym (==→eq j k t)) ∙ u.0 in
      rw (peers_at, t) (omega (arith, ap total_len (remove_absent k m absent)))
  | inr f ↦ rw (peers_at, f) (omega (arith, total_len-remove k m u.1))
]

-- A table in which no hash has peers is empty.
pub total_len_zero :
    (m : List (ℕ × List StoredPeer))
    → UniqueKeys m
    → ((k : ℕ) → peers_at k m ≡ [])
    → total_len m ≡ 0
total_len_zero [] u h = refl
total_len_zero ((j, w) ∷ m) u h =
    let here : w ≡ [] = rw (peers_at, ==_refl j) at (h j) in
    omega
      (arith, ap (λ (l : List StoredPeer). length l) here, total_len_zero m u.1 (others m j u.0 h))
  where
    others :
        (m : List (ℕ × List StoredPeer)) (j : ℕ)
        → find j m ≡ none
        → ((k : ℕ) → peers_at k ((j, w) ∷ m) ≡ [])
        → (k : ℕ) → peers_at k m ≡ []
    others m j absent h k = elim (Bool-cases (j == k)) [
      | inl t ↦ rw (peers_at, ap (λ (i : ℕ). find i m) (sym (==→eq j k t)) ∙ absent)
      | inr f ↦ rw (peers_at, f) at (h k)
    ]

-- What the inner loop leaves: it stops at the number that it is to evict, or at an empty list.
pub record IsEvicted (to_evict : ℕ) (ps : List StoredPeer) (evicted : ℕ) (r : ℕ × List StoredPeer)
    : Type 0 where
  pub fewer : Fewer r.1 ps
  pub counted : length r.1 + r.0 ≡ length ps + evicted
  pub bounded : r.0 ≤ to_evict
  pub done : (to_evict ≤ r.0) ⊎ (r.1 ≡ [])

pub evict_from-IsEvicted :
    (to_evict : ℕ) (ps : List StoredPeer) (evicted : ℕ)
    → evicted ≤ to_evict
    → IsEvicted to_evict ps evicted (evict_from to_evict ps evicted)
unfolding evict_from
evict_from-IsEvicted to_evict [] evicted h = record {
  fewer = λ f. omega arith;
  counted = refl;
  bounded = h;
  done = inr refl;
}
evict_from-IsEvicted to_evict (p ∷ ps) evicted h = elim (Bool-cases (ltb evicted to_evict)) [
  | inl more ↦
      let r = evict_from-IsEvicted to_evict ps (evicted + 1) (ground (arith, more)) in
      rw more (record {
        fewer = λ f. omega (arith, r.fewer f);
        counted = omega (arith, r.counted);
        bounded = r.bounded;
        done = r.done;
      })
  | inr enough ↦ rw enough (record {
    fewer = λ f. omega arith;
    counted = refl;
    bounded = h;
    done = inl (ground (arith, enough));
  })
]
