-- ===== src/PeerStore/Newest.antt =====
-- Cutting a list of peers keeps the newest ones.
use rust_torrent.Prelude.{
  Bool, ℕ, zero, suc, ◌+◌, ◌≤◌, ◌<◌, ◌≡◌, refl, ◌∙◌, Bool-cases, inl, inr, List, [], ◌∷◌, ltb, leb,
  take, if◌then◌else◌, arith,
}
use rust_torrent.Prelude.Sort.{
  insert_by, sort_by, sum_by, sum_by-insert_by, sum_by-sort_by, sum_by-take,
}
use rust_torrent.PeerStore.{StoredPeer, newest_first, oldest_first, evict_from}
use rust_torrent.PeerStore.Evict.{Fewer, evict_from-IsEvicted}

-- Counts the peers before a time, and those after it.
abbrev pub before : ℕ → StoredPeer → ℕ
before t p = if ltb p.time t then 1 else 0

abbrev after : ℕ → StoredPeer → ℕ
after t p = if ltb t p.time then 1 else 0

-- A number for the peers from a time on.
abbrev pub since : ℕ → (StoredPeer → ℕ) → StoredPeer → ℕ
since t f p = if leb t p.time then f p else 0

-- If a peer before some time is kept, so are all peers from that time on, as often as they occur.
abbrev pub Newest : List StoredPeer → List StoredPeer → Type 0
Newest kept all =
    (f : StoredPeer → ℕ) (t : ℕ)
    → 0 < sum_by (before t) kept
    → sum_by (since t f) kept ≡ sum_by (since t f) all

pub Newest-trans :
    (xs ys zs : List StoredPeer) → Fewer xs ys → Newest xs ys → Newest ys zs → Newest xs zs
Newest-trans xs ys zs fewer n m f t h = n f t h ∙ m f t (omega (arith, h, fewer (before t)))

pub Newest-sort_by :
    (le : StoredPeer → StoredPeer → Bool) (xs ys : List StoredPeer)
    → Newest xs (sort_by le ys)
    → Newest xs ys
Newest-sort_by le xs ys n f t h = n f t h ∙ sum_by-sort_by (since t f) le ys

before_mono : (s t : ℕ) (ps : List StoredPeer) → s ≤ t → sum_by (before s) ps ≤ sum_by (before t) ps
before_mono s t [] h = omega arith
before_mono s t (p ∷ ps) h = ground (arith, before_mono s t ps h)

after_mono : (s t : ℕ) (ps : List StoredPeer) → s ≤ t → sum_by (after t) ps ≤ sum_by (after s) ps
after_mono s t [] h = omega arith
after_mono s t (p ∷ ps) h = ground (arith, after_mono s t ps h)

-- Peers that are not after an earlier time are not counted.
since-zero :
    (f : StoredPeer → ℕ) (s t : ℕ) (ps : List StoredPeer)
    → s < t
    → sum_by (after s) ps ≡ 0
    → sum_by (since t f) ps ≡ 0
since-zero f s t [] h z = refl
since-zero f s t (p ∷ ps) h z = ground (arith, since-zero f s t ps h)

abbrev IsDescending : List StoredPeer → Type 0
IsDescending [] = Unit
IsDescending (p ∷ ps) = (sum_by (after p.time) ps ≡ 0) × IsDescending ps

abbrev IsAscending : List StoredPeer → Type 0
IsAscending [] = Unit
IsAscending (p ∷ ps) = (sum_by (before p.time) ps ≡ 0) × IsAscending ps

insert_by-IsDescending :
    (x : StoredPeer) (ps : List StoredPeer)
    → IsDescending ps
    → IsDescending (insert_by newest_first x ps)
unfolding insert_by
insert_by-IsDescending x [] d = (refl, tt)
insert_by-IsDescending x (p ∷ ps) d = elim (Bool-cases (leb p.time x.time)) [
  | inl t ↦ rw t (ground (arith, after_mono p.time x.time ps (ground (arith, t)), d.0, t), d)
  | inr f ↦ rw f (
    ground (arith, sum_by-insert_by (after p.time) newest_first x ps, d.0, f),
    insert_by-IsDescending x ps d.1,
  )
]

pub sort_by-IsDescending : (ps : List StoredPeer) → IsDescending (sort_by newest_first ps)
unfolding sort_by
sort_by-IsDescending [] = tt
sort_by-IsDescending (p ∷ ps) =
    insert_by-IsDescending p (sort_by newest_first ps) (sort_by-IsDescending ps)

insert_by-IsAscending :
    (x : StoredPeer) (ps : List StoredPeer)
    → IsAscending ps
    → IsAscending (insert_by oldest_first x ps)
unfolding insert_by
insert_by-IsAscending x [] d = (refl, tt)
insert_by-IsAscending x (p ∷ ps) d = elim (Bool-cases (leb x.time p.time)) [
  | inl t ↦ rw t (ground (arith, before_mono x.time p.time ps (ground (arith, t)), d.0, t), d)
  | inr f ↦ rw f (
    ground (arith, sum_by-insert_by (before p.time) oldest_first x ps, d.0, f),
    insert_by-IsAscending x ps d.1,
  )
]

pub sort_by-IsAscending : (ps : List StoredPeer) → IsAscending (sort_by oldest_first ps)
unfolding sort_by
sort_by-IsAscending [] = tt
sort_by-IsAscending (p ∷ ps) =
    insert_by-IsAscending p (sort_by oldest_first ps) (sort_by-IsAscending ps)

pub take-Newest : (n : ℕ) (ps : List StoredPeer) → IsDescending ps → Newest (take n ps) ps
take-Newest zero ps d f t h = absurd (omega (arith, h))
take-Newest (suc n) [] d f t h = absurd (omega (arith, h))
take-Newest (suc n) (p ∷ ps) d f t h = elim (Bool-cases (ltb p.time t)) [
  | inl old ↦
      let none_left = since-zero f p.time t ps (ground (arith, old)) d.0 in
      let none_taken : sum_by (since t f) (take n ps) ≡ 0 =
        omega (arith, none_left, sum_by-take (since t f) n ps) in
      ground (arith, none_left, none_taken, old)
  | inr new ↦ let rest = take-Newest n ps d.1 f t (ground (arith, h, new)) in ground (arith, rest)
]

pub evict_from-Newest :
    (to_evict : ℕ) (ps : List StoredPeer) (evicted : ℕ)
    → evicted ≤ to_evict
    → IsAscending ps
    → Newest (evict_from to_evict ps evicted).1 ps
unfolding evict_from
evict_from-Newest to_evict [] evicted le a = λ f t h. refl
evict_from-Newest to_evict (p ∷ ps) evicted le a = elim (Bool-cases (ltb evicted to_evict)) [
  | inr enough ↦ rw enough (λ f t h. refl)
  | inl more ↦
      let le' : evicted + 1 ≤ to_evict = ground (arith, more) in
      let r = evict_from-IsEvicted to_evict ps (evicted + 1) le' in
      rw more (λ f t h.
        let rest = evict_from-Newest to_evict ps (evicted + 1) le' a.1 f t h in
        let some_old = r.fewer (before t) in
        elim (Bool-cases (ltb p.time t)) [
          | inl old ↦ ground (arith, rest, old)
          | inr new ↦
              let none_old = before_mono t p.time ps (ground (arith, new)) in
              absurd (omega (arith, none_old, some_old, h, a.0))
        ])
]
