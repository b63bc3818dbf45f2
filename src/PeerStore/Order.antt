-- ===== src/PeerStore/Order.antt =====
-- The hashes with the oldest peers lose their peers first.
use rust_torrent.Prelude.{
  ℕ, ◌-◌, ◌≤◌, ◌<◌, ◌≡◌, refl, sym, ◌∙◌, ap, true, false, inl, inr, Bool-cases, Option-cases, none,
  some, List, [], ◌∷◌, length, ltb, leb, ◌==◌, ◌&&◌, ◌||◌, ==→eq, if◌then◌else◌, as_u32, u32_mod,
  arith,
}
use rust_torrent.Prelude.Sort.{insert_by, sort_by, sum_by, sum_by-insert_by, sum_by-sort_by}
use rust_torrent.Prelude.HashMap.{find, UniqueKeys}
use rust_torrent.PeerStore.{
  StoredPeer, total_len, entries_with_oldest, oldest_from, by_oldest, oldest_first, evict_from,
  evict_loop, capped,
}
use rust_torrent.PeerStore.Evict.{Fewer, peers_at, evict_from-IsEvicted}
use rust_torrent.PeerStore.EvictAll.{put_rest, peers_at-put_rest, Fewer-put_rest}
use rust_torrent.PeerStore.Newest.{before, evict_from-Newest, sort_by-IsAscending}

-- Counts the entries of a hash whose oldest peer is before a time.
abbrev early : ℕ → ℕ → ℕ × ℕ → ℕ
early j t e = if e.0 == j && ltb e.1 t then 1 else 0

abbrev is_before : ℕ → ℕ × ℕ → ℕ
is_before t e = if ltb e.1 t then 1 else 0

abbrev IsOrdered : List (ℕ × ℕ) → Type 0
IsOrdered [] = Unit
IsOrdered (e ∷ es) = (sum_by (is_before e.1) es ≡ 0) × IsOrdered es

is_before_mono :
    (s t : ℕ) (es : List (ℕ × ℕ)) → s ≤ t → sum_by (is_before s) es ≤ sum_by (is_before t) es
is_before_mono s t [] h = omega arith
is_before_mono s t (e ∷ es) h = ground (arith, is_before_mono s t es h)

insert_by-IsOrdered :
    (x : ℕ × ℕ) (es : List (ℕ × ℕ)) → IsOrdered es → IsOrdered (insert_by by_oldest x es)
unfolding insert_by
insert_by-IsOrdered x [] d = (refl, tt)
insert_by-IsOrdered x (e ∷ es) d = elim (Bool-cases (leb x.1 e.1)) [
  | inl t ↦ rw t (ground (arith, is_before_mono x.1 e.1 es (ground (arith, t)), d.0, t), d)
  | inr f ↦ rw f (
    ground (arith, sum_by-insert_by (is_before e.1) by_oldest x es, d.0, f),
    insert_by-IsOrdered x es d.1,
  )
]

sort_by-IsOrdered : (es : List (ℕ × ℕ)) → IsOrdered (sort_by by_oldest es)
unfolding sort_by
sort_by-IsOrdered [] = tt
sort_by-IsOrdered (e ∷ es) = insert_by-IsOrdered e (sort_by by_oldest es) (sort_by-IsOrdered es)

early-le : (j t : ℕ) (es : List (ℕ × ℕ)) → sum_by (early j t) es ≤ sum_by (is_before t) es
early-le j t [] = omega arith
early-le j t (e ∷ es) = ground (arith, early-le j t es)

Fewer-nil : (xs ys : List StoredPeer) → Fewer xs ys → ys ≡ [] → xs ≡ []
Fewer-nil [] ys fewer e = refl
Fewer-nil (x ∷ xs) ys fewer e =
    let gone : sum_by (λ (p : StoredPeer). 1) ys ≡ 0 = ap (sum_by (λ (p : StoredPeer). 1)) e in
    absurd (omega (arith, fewer (λ p. 1), gone))

module _ (to_evict : ℕ) where
  evict_loop-Fewer :
      (j : ℕ) (es : List (ℕ × ℕ)) (evicted : ℕ) (m : List (ℕ × List StoredPeer))
      → evicted ≤ to_evict
      → Fewer (peers_at j (evict_loop to_evict es evicted m)) (peers_at j m)
  unfolding evict_loop
  evict_loop-Fewer j [] evicted m h f = omega arith
  evict_loop-Fewer j ((hash, oldest) ∷ es) evicted m h f =
      elim (Bool-cases (leb to_evict evicted)) [
        | inl stop ↦ rw stop (omega arith)
        | inr more ↦ elim (Option-cases (find hash m)) [
          | inl absent ↦ rw (more, absent) (evict_loop-Fewer j es evicted m h f)
          | inr (old, found) ↦
              let sorted = sort_by oldest_first old in
              let r = evict_from-IsEvicted to_evict sorted evicted h in
              let n = evict_from-Newest to_evict sorted evicted h (sort_by-IsAscending old) in
              let m₁ = put_rest hash (evict_from to_evict sorted evicted).1 m in
              rw (more, found)
                (omega (
                  arith,
                  evict_loop-Fewer j es (evict_from to_evict sorted evicted).0 m₁ r.bounded f,
                  Fewer-put_rest to_evict hash evicted m found r n j f,
                ))
        ]
      ]

  -- Nothing is evicted any more.
  evict_loop-stop :
      (es : List (ℕ × ℕ)) (evicted : ℕ) (m : List (ℕ × List StoredPeer))
      → to_evict ≤ evicted
      → evict_loop to_evict es evicted m ≡ m
  unfolding evict_loop
  evict_loop-stop [] evicted m h = refl
  evict_loop-stop ((hash, oldest) ∷ es) evicted m h =
      let stop : leb to_evict evicted ≡ true = ground (arith, h) in rw stop refl

  -- What is shown of the loop over some entries.
  abbrev Ordered : ℕ → ℕ → ℕ → List (ℕ × ℕ) → Type 0
  Ordered j k t es =
      (evicted : ℕ) (m : List (ℕ × List StoredPeer))
      → evicted ≤ to_evict
      → 0 < sum_by (early j t) es
      → sum_by (early k t) es ≡ 0
      → length (peers_at k (evict_loop to_evict es evicted m)) < length (peers_at k m)
      → peers_at j (evict_loop to_evict es evicted m) ≡ []

  module _ (j k t : ℕ) (other : (j == k) ≡ false) where
    evict_loop-Ordered :
        (es : List (ℕ × ℕ)) (evicted : ℕ) (m : List (ℕ × List StoredPeer))
        → evicted ≤ to_evict
        → IsOrdered es
        → 0 < sum_by (early j t) es
        → sum_by (early k t) es ≡ 0
        → length (peers_at k (evict_loop to_evict es evicted m)) < length (peers_at k m)
        → peers_at j (evict_loop to_evict es evicted m) ≡ []
    unfolding evict_loop
    evict_loop-Ordered [] evicted m h o hj hk less = absurd (omega (arith, hj))
    evict_loop-Ordered ((hash, oldest) ∷ es) evicted m h o hj hk less =
        elim (Bool-cases (leb to_evict evicted)) [
          | inl stop ↦ absurd (omega (arith, rw stop at less))
          | inr more ↦ elim (Option-cases (find hash m)) [
            | inl absent ↦
                rw (more, absent)
                  (without (λ e' x h' a b c. evict_loop-Ordered es e' x h' o.1 a b c) absent
                    (rw (more, absent) at less))
            | inr (old, found) ↦
                rw (more, found)
                  (with_old (λ e' x h' a b c. evict_loop-Ordered es e' x h' o.1 a b c) found
                    (rw (more, found) at less))
          ]
        ]
      where
        without :
            Ordered j k t es
            → find hash m ≡ none
            → length (peers_at k (evict_loop to_evict es evicted m)) < length (peers_at k m)
            → peers_at j (evict_loop to_evict es evicted m) ≡ []
        without ih absent less' = elim (Bool-cases (hash == j)) [
          | inl t' ↦
              let gone : peers_at j m ≡ [] =
                rw (peers_at, ap (λ (i : ℕ). find i m) (sym (==→eq hash j t')) ∙ absent) refl in
              Fewer-nil (peers_at j (evict_loop to_evict es evicted m)) (peers_at j m)
                (evict_loop-Fewer j es evicted m h) gone
          | inr f ↦ ih evicted m h (ground (arith, hj, f)) (omega (arith, hk)) less'
        ]

        with_old :
            {old : List StoredPeer}
            → Ordered j k t es
            → find hash m ≡ some old
            → length (
                peers_at k (
                  evict_loop to_evict es
                    (evict_from to_evict (sort_by oldest_first old) evicted).0
                    (put_rest hash (evict_from to_evict (sort_by oldest_first old) evicted).1 m)))
              < length (peers_at k m)
            → peers_at j (
                evict_loop to_evict es
                  (evict_from to_evict (sort_by oldest_first old) evicted).0
                  (put_rest hash (evict_from to_evict (sort_by oldest_first old) evicted).1 m))
              ≡ []
        with_old {old} ih found less' =
            let sorted = sort_by oldest_first old in
            let r = evict_from-IsEvicted to_evict sorted evicted h in
            let n = (evict_from to_evict sorted evicted).0 in
            let rest = (evict_from to_evict sorted evicted).1 in
            let m₁ = put_rest hash rest m in
            elim (Bool-cases (hash == k)) [
              | inl at_k ↦
                  let apart : (hash == j) ≡ false = ground (arith, at_k, other) in
                  let late : t ≤ oldest = ground (arith, hk, at_k) in
                  absurd (
                    ground
                      (arith, hj, apart, early-le j t es, is_before_mono t oldest es late, o.0))
              | inr not_k ↦
                  let same_k : peers_at k m₁ ≡ peers_at k m =
                    peers_at-put_rest hash m found k rest ∙ rw not_k refl in
                  let same_len = ap (λ (l : List StoredPeer). length l) same_k in
                  elim (Bool-cases (hash == j)) [
                    | inr not_j ↦
                        ih n m₁ r.bounded (ground (arith, hj, not_j)) (omega (arith, hk))
                          (omega (arith, less', same_len))
                    | inl at_j ↦ elim r.done [
                      | inl stop ↦
                          let still =
                            ap (λ (x : List (ℕ × List StoredPeer)). length (peers_at k x))
                              (evict_loop-stop es n m₁ stop) in
                          absurd (omega (arith, less', still, same_len))
                      | inr emptied ↦
                          let gone : peers_at j m₁ ≡ [] =
                            peers_at-put_rest hash m found j rest ∙ rw at_j emptied in
                          Fewer-nil (peers_at j (evict_loop to_evict es n m₁)) (peers_at j m₁)
                            (evict_loop-Fewer j es n m₁ r.bounded) gone
                    ]
                  ]
            ]

-- The entries of a table say where the oldest peers are.
oldest_from-before :
    (t b : ℕ) (ps : List StoredPeer)
    → ltb (oldest_from b ps) t ≡ (ltb b t || ltb 0 (sum_by (before t) ps))
oldest_from-before t b [] = ground arith
oldest_from-before t b (p ∷ ps) = elim (Bool-cases (ltb p.time b)) [
  | inl older ↦ rw (oldest_from, older) (ground (arith, oldest_from-before t p.time ps, older))
  | inr newer ↦ rw (oldest_from, newer) (ground (arith, oldest_from-before t b ps, newer))
]

entries-early :
    (j t : ℕ) (m : List (ℕ × List StoredPeer))
    → 0 < sum_by (before t) (peers_at j m)
    → 0 < sum_by (early j t) (entries_with_oldest m)
unfolding entries_with_oldest
entries-early j t [] h = absurd (omega (arith, h))
entries-early j t ((hash, []) ∷ m) h = elim (Bool-cases (hash == j)) [
  | inl e ↦ absurd (omega (arith, rw (peers_at, e) at h))
  | inr n ↦ entries-early j t m (rw (peers_at, n) at h)
]
entries-early j t ((hash, p ∷ ps) ∷ m) h = elim (Bool-cases (hash == j)) [
  | inl e ↦ let h' = rw (peers_at, e) at h in ground (arith, oldest_from-before t p.time ps, e, h')
  | inr n ↦ let rest = entries-early j t m (rw (peers_at, n) at h) in ground (arith, rest)
]

entries-absent :
    (k t : ℕ) (m : List (ℕ × List StoredPeer))
    → find k m ≡ none
    → sum_by (early k t) (entries_with_oldest m) ≡ 0
unfolding entries_with_oldest
entries-absent k t [] h = refl
entries-absent k t ((hash, ps) ∷ m) h = elim (Bool-cases (hash == k)) [
  | inl e ↦ cc (rw e at h)
  | inr n ↦ skipped ps n (entries-absent k t m (rw n at h))
]
  where
    skipped :
        (qs : List StoredPeer)
        → (hash == k) ≡ false
        → sum_by (early k t) (entries_with_oldest m) ≡ 0
        → sum_by (early k t) (entries_with_oldest ((hash, qs) ∷ m)) ≡ 0
    skipped [] n z = z
    skipped (q ∷ qs) n z = ground (arith, n, z)

entries-late :
    (k t : ℕ) (m : List (ℕ × List StoredPeer))
    → UniqueKeys m
    → sum_by (before t) (peers_at k m) ≡ 0
    → sum_by (early k t) (entries_with_oldest m) ≡ 0
unfolding entries_with_oldest
entries-late k t [] u h = refl
entries-late k t ((hash, []) ∷ m) u h = elim (Bool-cases (hash == k)) [
  | inl e ↦ entries-absent k t m (ap (λ (i : ℕ). find i m) (sym (==→eq hash k e)) ∙ u.0)
  | inr n ↦ entries-late k t m u.1 (rw (peers_at, n) at h)
]
entries-late k t ((hash, p ∷ ps) ∷ m) u h = elim (Bool-cases (hash == k)) [
  | inl e ↦
      let h' = rw (peers_at, e) at h in
      let none_later =
        entries-absent k t m (ap (λ (i : ℕ). find i m) (sym (==→eq hash k e)) ∙ u.0) in
      ground (arith, oldest_from-before t p.time ps, h', none_later)
  | inr n ↦ let rest = entries-late k t m u.1 (rw (peers_at, n) at h) in ground (arith, rest, n)
]

-- If a hash loses peers to the cap, then one whose oldest peer is older has none left.
pub capped-Ordered :
    (max : ℕ) (m : List (ℕ × List StoredPeer))
    → UniqueKeys m
    → total_len m < u32_mod
    → (j k t : ℕ) → 0 < sum_by (before t) (peers_at j m)
    → sum_by (before t) (peers_at k m) ≡ 0
    → length (peers_at k (capped max m)) < length (peers_at k m)
    → peers_at j (capped max m) ≡ []
unfolding capped
capped-Ordered max m u small j k t hj hk less =
    let count : as_u32 (total_len m) ≡ total_len m = omega (arith, small) in
    elim (Bool-cases (ltb max (total_len m))) [
      | inr fits ↦ absurd (omega (arith, rw (count, fits) at less))
      | inl over ↦
          let es = entries_with_oldest m in
          let other : (j == k) ≡ false = elim (Bool-cases (j == k)) [
            | inr f ↦ f
            | inl e ↦ absurd (
                omega
                  (arith, hj, hk, ap (λ (i : ℕ). sum_by (before t) (peers_at i m)) (==→eq j k e)))
          ] in
          rw (count, over)
            (evict_loop-Ordered (total_len m - max) j k t other (sort_by by_oldest es) 0 m
              (omega arith) (sort_by-IsOrdered es)
              (omega (arith, entries-early j t m hj, sum_by-sort_by (early j t) by_oldest es))
              (omega (arith, entries-late k t m u hk, sum_by-sort_by (early k t) by_oldest es))
              (rw (count, over) at less))
    ]
