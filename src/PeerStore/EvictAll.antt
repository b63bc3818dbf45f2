-- ===== src/PeerStore/EvictAll.antt =====
-- The loop over the entries, from the one with the oldest peer on.
use rust_torrent.Prelude.{
  ℕ, ◌+◌, ◌-◌, min, ◌≤◌, ◌<◌, ◌≡◌, refl, sym, ◌∙◌, ap, ◌⊎◌, inl, inr, false, Bool-cases,
  Option-cases, none, some, List, [], ◌∷◌, length, ltb, leb, ◌==◌, ==→eq, if◌then◌else◌, as_u32,
  u32_mod, arith,
}
use rust_torrent.Prelude.Sort.{sort_by, sum_by, length-sum_by, sum_by-sort_by}
use rust_torrent.Prelude.HashMap.{
  find, remove, replace_value, UniqueKeys, remove-UniqueKeys, replace_value-UniqueKeys,
}
use rust_torrent.PeerStore.{
  StoredPeer, is_empty, total_len, entries_with_oldest, by_oldest, oldest_first, evict_from,
  evict_loop, capped,
}
use rust_torrent.PeerStore.Evict.{
  Fewer, peers_at, peers_at-remove, peers_at-replace_value, total_len-replace_value,
  total_len-remove, total_len_zero, IsEvicted, evict_from-IsEvicted,
}
use rust_torrent.PeerStore.Newest.{
  Newest, Newest-trans, Newest-sort_by, evict_from-Newest, sort_by-IsAscending,
}

abbrev has_hash : ℕ → ℕ × ℕ → ℕ
has_hash k e = if e.0 == k then 1 else 0

-- Only hashes of the entries have peers.
abbrev Covers : List (ℕ × ℕ) → List (ℕ × List StoredPeer) → Type 0
Covers es m = (k : ℕ) → sum_by (has_hash k) es ≡ 0 → peers_at k m ≡ []

-- A table with `n` peers less, and no others.
pub record IsCut (n : ℕ) (m m' : List (ℕ × List StoredPeer)) : Type 0 where
  pub unique : UniqueKeys m'
  pub fewer : (k : ℕ) → Fewer (peers_at k m') (peers_at k m)
  pub newest : (k : ℕ) → Newest (peers_at k m') (peers_at k m)
  pub total : total_len m' + n ≡ total_len m

-- The table after the inner loop at one hash.
abbrev pub put_rest : ℕ → List StoredPeer → List (ℕ × List StoredPeer) → List (ℕ × List StoredPeer)
put_rest hash rest m = if is_empty rest then remove hash m else replace_value hash rest m

module _ (hash : ℕ) (m : List (ℕ × List StoredPeer)) {old : List StoredPeer}
    (found : find hash m ≡ some old) where
  pub peers_at-put_rest :
      (k : ℕ) (rest : List StoredPeer)
      → peers_at k (put_rest hash rest m) ≡ (if hash == k then rest else peers_at k m)
  peers_at-put_rest k [] = peers_at-remove hash k m
  peers_at-put_rest k (p ∷ ps) = peers_at-replace_value hash k (p ∷ ps) m found

  put_rest-UniqueKeys : (rest : List StoredPeer) → UniqueKeys m → UniqueKeys (put_rest hash rest m)
  put_rest-UniqueKeys [] u = remove-UniqueKeys hash m u
  put_rest-UniqueKeys (p ∷ ps) u = replace_value-UniqueKeys hash (p ∷ ps) m u

  total_len-put_rest :
      (rest : List StoredPeer)
      → UniqueKeys m
      → total_len (put_rest hash rest m) + length old ≡ total_len m + length rest
  total_len-put_rest [] u =
      let here : peers_at hash m ≡ old = rw (peers_at, found) in
      omega (arith, total_len-remove hash m u, ap (λ (l : List StoredPeer). length l) here)
  total_len-put_rest (p ∷ ps) u = total_len-replace_value hash (p ∷ ps) m found

module _ (to_evict : ℕ) where
  abbrev Step : ℕ → List (ℕ × List StoredPeer) → List (ℕ × List StoredPeer) → Type 0
  Step evicted m m' = (n : ℕ) × (n + evicted ≡ to_evict) × IsCut n m m'

  -- One hash of the loop.
  module _ (hash evicted : ℕ) (m : List (ℕ × List StoredPeer)) {old : List StoredPeer}
      (found : find hash m ≡ some old) {r : ℕ × List StoredPeer}
      (v : IsEvicted to_evict (sort_by oldest_first old) evicted r)
      (n : Newest r.1 (sort_by oldest_first old)) where
    sorted_len : length (sort_by oldest_first old) ≡ length old
    sorted_len = omega (
      arith,
      length-sum_by (sort_by oldest_first old),
      sum_by-sort_by (λ (p : StoredPeer). 1) oldest_first old,
      length-sum_by old,
    )

    pub Fewer-put_rest : (k : ℕ) → Fewer (peers_at k (put_rest hash r.1 m)) (peers_at k m)
    Fewer-put_rest k f = elim (Bool-cases (hash == k)) [
      | inl t ↦
          let here : peers_at k m ≡ old =
            rw (peers_at, ap (λ (i : ℕ). find i m) (sym (==→eq hash k t)) ∙ found) in
          rw (peers_at-put_rest hash m found k r.1, t, here)
            (omega (arith, v.fewer f, sum_by-sort_by f oldest_first old))
      | inr e ↦ rw (peers_at-put_rest hash m found k r.1, e) (omega arith)
    ]

    Newest-put_rest : (k : ℕ) → Newest (peers_at k (put_rest hash r.1 m)) (peers_at k m)
    Newest-put_rest k = elim (Bool-cases (hash == k)) [
      | inl t ↦
          let here : peers_at k m ≡ old =
            rw (peers_at, ap (λ (i : ℕ). find i m) (sym (==→eq hash k t)) ∙ found) in
          rw (peers_at-put_rest hash m found k r.1, t, here) (Newest-sort_by oldest_first r.1 old n)
      | inr e ↦ rw (peers_at-put_rest hash m found k r.1, e) (λ f t h. refl)
    ]

    before :
        {m' : List (ℕ × List StoredPeer)}
        → UniqueKeys m
        → Step r.0 (put_rest hash r.1 m) m'
        → Step evicted m m'
    before {m'} u (n₁, count, cut) =
        let total = total_len-put_rest hash m found r.1 u in
        (
          n₁ + (r.0 - evicted),
          omega (
            arith,
            count,
            v.counted,
            sorted_len,
            total,
            v.fewer (λ p. 1),
            length-sum_by r.1,
            length-sum_by (sort_by oldest_first old),
          ),
          record {
            unique = cut.unique;
            fewer = λ k f. omega (arith, cut.fewer k f, Fewer-put_rest k f);
            newest = λ k.
                Newest-trans (peers_at k m') (peers_at k (put_rest hash r.1 m)) (peers_at k m)
                  (cut.fewer k) (cut.newest k) (Newest-put_rest k);
            total = omega (
              arith,
              cut.total,
              total,
              v.counted,
              sorted_len,
              v.fewer (λ p. 1),
              length-sum_by r.1,
              length-sum_by (sort_by oldest_first old),
            );
          },
        )

    Covers-put_rest :
        (es : List (ℕ × ℕ)) (oldest : ℕ)
        → Covers ((hash, oldest) ∷ es) m
        → (to_evict ≤ r.0) ⊎ Covers es (put_rest hash r.1 m)
    Covers-put_rest es oldest covers = elim v.done [
      | inl stop ↦ inl stop
      | inr emptied ↦ inr (λ k z. elim (Bool-cases (hash == k)) [
        | inl t ↦ rw (peers_at-put_rest hash m found k r.1, t) emptied
        | inr e ↦ rw (peers_at-put_rest hash m found k r.1, e) (covers k (rw e (omega (arith, z))))
      ])
    ]

  evict_loop-IsCut :
      (es : List (ℕ × ℕ)) (evicted : ℕ) (m : List (ℕ × List StoredPeer))
      → evicted ≤ to_evict
      → to_evict ≤ total_len m + evicted
      → UniqueKeys m
      → (to_evict ≤ evicted) ⊎ Covers es m
      → Step evicted m (evict_loop to_evict es evicted m)
  unfolding evict_loop
  evict_loop-IsCut [] evicted m h enough u (inl stop) = (
    0,
    omega arith,
    record {
      unique = u;
      fewer = λ k f. omega arith;
      newest = λ k f t h. refl;
      total = omega arith;
    },
  )
  evict_loop-IsCut [] evicted m h enough u (inr covers) =
      let none_left = total_len_zero m u (λ k. covers k refl) in
      (
        0,
        omega (arith, none_left),
        record {
          unique = u;
          fewer = λ k f. omega arith;
          newest = λ k f t h. refl;
          total = omega arith;
        },
      )
  evict_loop-IsCut ((hash, oldest) ∷ es) evicted m h enough u c =
      elim (Bool-cases (leb to_evict evicted)) [
        | inl stop ↦ rw stop (
          0,
          ground (arith, stop),
          record {
            unique = u;
            fewer = λ k f. omega arith;
            newest = λ k f t h. refl;
            total = omega arith;
          },
        )
        | inr more ↦
            let covers = covers_of c more in
            elim (Option-cases (find hash m)) [
              | inl absent ↦
                  rw (more, absent)
                    (evict_loop-IsCut es evicted m h enough u
                      (inr (λ k z. uncovered absent covers k z)))
              | inr (old, found) ↦
                  let sorted = sort_by oldest_first old in
                  let r = evict_from-IsEvicted to_evict sorted evicted h in
                  let n = evict_from-Newest to_evict sorted evicted h (sort_by-IsAscending old) in
                  let total =
                    total_len-put_rest hash m found (evict_from to_evict sorted evicted).1 u in
                  rw (more, found)
                    (before hash evicted m found r n u (
                      evict_loop-IsCut es (evict_from to_evict sorted evicted).0
                        (put_rest hash (evict_from to_evict sorted evicted).1 m) r.bounded
                        (omega
                          (arith, enough, total, r.counted, sorted_len hash evicted m found r n))
                        (put_rest-UniqueKeys hash m found (evict_from to_evict sorted evicted).1 u)
                        (Covers-put_rest hash evicted m found r n es oldest covers)))
            ]
      ]
    where
      covers_of :
          (to_evict ≤ evicted) ⊎ Covers ((hash, oldest) ∷ es) m
          → leb to_evict evicted ≡ false
          → Covers ((hash, oldest) ∷ es) m
      covers_of (inl stop) more = absurd (ground (arith, more))
      covers_of (inr covers) more = covers

      uncovered : find hash m ≡ none → Covers ((hash, oldest) ∷ es) m → Covers es m
      uncovered absent covers k z = elim (Bool-cases (hash == k)) [
        | inl t ↦ rw (peers_at, ap (λ (i : ℕ). find i m) (sym (==→eq hash k t)) ∙ absent)
        | inr f ↦ covers k (rw f (omega (arith, z)))
      ]

entries-Covers : (m : List (ℕ × List StoredPeer)) → Covers (entries_with_oldest m) m
unfolding entries_with_oldest
entries-Covers [] k z = refl
entries-Covers ((hash, []) ∷ m) k z = elim (Bool-cases (hash == k)) [
  | inl t ↦ rw (peers_at, t) refl
  | inr f ↦ rw (peers_at, f) (entries-Covers m k z)
]
entries-Covers ((hash, p ∷ ps) ∷ m) k z = elim (Bool-cases (hash == k)) [
  | inl t ↦ absurd (omega (arith, rw t at z))
  | inr f ↦ let z' = rw f at z in rw (peers_at, f) (entries-Covers m k (omega (arith, z')))
]

-- The cap: at most `max` peers are left, and all of them if they are no more.
pub record IsCapped (max : ℕ) (m m' : List (ℕ × List StoredPeer)) : Type 0 where
  pub unique : UniqueKeys m'
  pub fewer : (k : ℕ) → Fewer (peers_at k m') (peers_at k m)
  pub newest : (k : ℕ) → Newest (peers_at k m') (peers_at k m)
  pub total : total_len m' ≡ min (total_len m) max

pub capped-IsCapped :
    (max : ℕ) (m : List (ℕ × List StoredPeer))
    → UniqueKeys m
    → total_len m < u32_mod
    → IsCapped max m (capped max m)
unfolding capped
capped-IsCapped max m u small =
    let count : as_u32 (total_len m) ≡ total_len m = omega (arith, small) in
    elim (Bool-cases (ltb max (total_len m))) [
      | inl over ↦
          let entries = entries_with_oldest m in
          let covers : Covers (sort_by by_oldest entries) m = λ k z.
            entries-Covers m k (omega (arith, z, sum_by-sort_by (has_hash k) by_oldest entries)) in
          let (n, eq, cut) =
            evict_loop-IsCut (total_len m - max) (sort_by by_oldest entries) 0 m (omega arith)
              (omega arith) u (inr covers) in
          rw (count, over)
            (record {
              unique = cut.unique;
              fewer = cut.fewer;
              newest = cut.newest;
              total = ground (arith, cut.total, eq, over);
            })
      | inr fits ↦
          rw (count, fits)
            (record {
              unique = u;
              fewer = λ k f. omega arith;
              newest = λ k f t h. refl;
              total = ground (arith, fits);
            })
    ]
