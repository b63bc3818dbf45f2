-- ===== src/PeerStore/Announce.antt =====
-- `store_peer`: which announcements are kept, and what they change.
use rust_torrent.Prelude.{
  ℕ, suc, ◌+◌, ◌≤◌, ◌≡◌, refl, sym, ◌∙◌, ap, inl, inr, Bool, true, false, Bool-cases, same_bool,
  none, some, List, [], ◌∷◌, ◌++◌, length, ◌==◌, ==→eq, ==_refl, if◌then◌else◌, arith,
}
use rust_torrent.Prelude.Sort.{sum_by, sum_by-append}
use rust_torrent.Prelude.HashMap.{find, replace_value, UniqueKeys, replace_value-UniqueKeys}
use rust_torrent.PeerStore.{StoredPeer, PeerStore, has_addr, refresh, total_len}
use rust_torrent.Addresses.{SocketAddr, same_addr}
use rust_torrent.PeerStore.Evict.{peers_at, peers_at-replace_value, total_len-replace_value}

same_bool→eq : (a b : Bool) → same_bool a b ≡ true → a ≡ b
same_bool→eq true true h = refl
same_bool→eq false false h = refl
same_bool→eq true false h = cc
same_bool→eq false true h = cc

same_addr_refl : (a : SocketAddr) → same_addr a a ≡ true
same_addr_refl a = ground (arith, ==_refl a.ip, ==_refl a.port)

same_addr→eq : (a b : SocketAddr) → same_addr a b ≡ true → a ≡ b
same_addr→eq a b h =
    let v : same_bool a.is_ipv6 b.is_ipv6 ≡ true = ground (arith, h) in
    let i : (a.ip == b.ip) ≡ true = ground (arith, h) in
    let p : (a.port == b.port) ≡ true = ground (arith, h) in
    cc (same_bool→eq a.is_ipv6 b.is_ipv6 v, ==→eq a.ip b.ip i, ==→eq a.port b.port p)

-- Counts the peers of an address.
abbrev pub at_addr : SocketAddr → StoredPeer → ℕ
at_addr a p = if same_addr p.addr a then 1 else 0

has_addr-zero :
    (a : SocketAddr) (ps : List StoredPeer) → has_addr a ps ≡ false → sum_by (at_addr a) ps ≡ 0
has_addr-zero a [] h = refl
has_addr-zero a (p ∷ ps) h = elim (Bool-cases (same_addr p.addr a)) [
  | inl t ↦ cc (rw t at h)
  | inr f ↦ rw f (omega (arith, has_addr-zero a ps (rw f at h)))
]

has_addr-append :
    (a : SocketAddr) (ps : List StoredPeer) (p : StoredPeer)
    → same_addr p.addr a ≡ true
    → has_addr a (ps ++ (p ∷ [])) ≡ true
has_addr-append a [] p h = ground (arith, h)
has_addr-append a (q ∷ ps) p h = ground (arith, has_addr-append a ps p h)

module _ (now : ℕ) (addr : SocketAddr) where
  refresh-at_addr :
      (a : SocketAddr) (ps : List StoredPeer)
      → sum_by (at_addr a) (refresh now addr ps) ≡ sum_by (at_addr a) ps
  refresh-at_addr a [] = refl
  refresh-at_addr a (p ∷ ps) = elim (Bool-cases (same_addr p.addr addr)) [
    | inl t ↦ rw t refl
    | inr f ↦ rw f (omega (arith, refresh-at_addr a ps))
  ]

  has_addr-refresh : (ps : List StoredPeer) → has_addr addr (refresh now addr ps) ≡ has_addr addr ps
  has_addr-refresh [] = refl
  has_addr-refresh (p ∷ ps) = elim (Bool-cases (same_addr p.addr addr)) [
    | inl t ↦ rw (t, t) refl
    | inr f ↦ rw (f, f) (has_addr-refresh ps)
  ]

  pub length-refresh : (ps : List StoredPeer) → length (refresh now addr ps) ≡ length ps
  length-refresh [] = refl
  length-refresh (p ∷ ps) = elim (Bool-cases (same_addr p.addr addr)) [
    | inl t ↦ rw t refl
    | inr f ↦ rw f (ap suc (length-refresh ps))
  ]

-- The peers of a hash when an address was stored.
pub record IsAdded (addr : SocketAddr) (old new : List StoredPeer) : Type 0 where
  pub has : has_addr addr new ≡ true
  pub keeps : (a : SocketAddr) → sum_by (at_addr a) old ≤ sum_by (at_addr a) new
  pub once :
      ((a : SocketAddr) → sum_by (at_addr a) old ≤ 1)
      → (a : SocketAddr) → sum_by (at_addr a) new ≤ 1

pub refresh-IsAdded :
    (now : ℕ) (addr : SocketAddr) (old : List StoredPeer)
    → has_addr addr old ≡ true
    → IsAdded addr old (refresh now addr old)
refresh-IsAdded now addr old h = record {
  has = has_addr-refresh now addr old ∙ h;
  keeps = λ a. omega (arith, refresh-at_addr now addr a old);
  once = λ o a. omega (arith, refresh-at_addr now addr a old, o a);
}

pub append-IsAdded :
    (addr : SocketAddr) (time : ℕ) (old : List StoredPeer)
    → has_addr addr old ≡ false
    → IsAdded addr old (old ++ (record { addr = addr; time = time } ∷ []))
append-IsAdded addr time old h =
    let p : StoredPeer = record { addr = addr; time = time } in
    record {
      has = has_addr-append addr old p (same_addr_refl addr);
      keeps = λ a. omega (arith, sum_by-append (at_addr a) old (p ∷ []));
      once = λ o a. elim (Bool-cases (same_addr addr a)) [
        | inl t ↦
            let zero_here : sum_by (at_addr a) old ≡ 0 =
              ap (λ (b : SocketAddr). sum_by (at_addr b) old) (sym (same_addr→eq addr a t))
              ∙ has_addr-zero addr old h in
            let one : at_addr a p ≡ 1 = rw t refl in
            omega (arith, sum_by-append (at_addr a) old (p ∷ []), zero_here, one)
        | inr f ↦
            let zero_new : at_addr a p ≡ 0 = rw f refl in
            omega (arith, sum_by-append (at_addr a) old (p ∷ []), o a, zero_new)
      ];
    }

-- A store in which the address is among the peers of the info hash, where all peers of before are too;
-- the other hashes are as they were, and the count of all peers has grown by `n`.
pub record IsStored (info_hash : ℕ) (addr : SocketAddr) (n : ℕ) (ps ps' : PeerStore) : Type 0 where
  pub has : has_addr addr (peers_at info_hash ps'.peers) ≡ true
  pub keeps :
      (a : SocketAddr)
      → sum_by (at_addr a) (peers_at info_hash ps.peers)
        ≤ sum_by (at_addr a) (peers_at info_hash ps'.peers)
  pub others : (k : ℕ) → (info_hash == k) ≡ false → peers_at k ps'.peers ≡ peers_at k ps.peers
  pub total : total_len ps'.peers ≡ total_len ps.peers + n
  pub once :
      ((a : SocketAddr) → sum_by (at_addr a) (peers_at info_hash ps.peers) ≤ 1)
      → (a : SocketAddr) → sum_by (at_addr a) (peers_at info_hash ps'.peers) ≤ 1
  pub unique : UniqueKeys ps.peers → UniqueKeys ps'.peers

module _ (info_hash : ℕ) (addr : SocketAddr) (ps : PeerStore) where
  pub replaced-IsStored :
      (old new : List StoredPeer) (count : ℕ)
      → find info_hash ps.peers ≡ some old
      → IsAdded addr old new
      → (n : ℕ) → length new ≡ length old + n
      → IsStored info_hash addr n ps
          (record ps { peers = replace_value info_hash new ps.peers; peers_len = count })
  replaced-IsStored old new count found added n len =
      let at_hash : peers_at info_hash (replace_value info_hash new ps.peers) ≡ new =
        peers_at-replace_value info_hash info_hash new ps.peers found
        ∙ rw (==_refl info_hash) refl in
      let before : peers_at info_hash ps.peers ≡ old = rw (peers_at, found) refl in
      record {
        has = rw at_hash added.has;
        keeps = λ a. rw (at_hash, before) (added.keeps a);
        others = λ k f. peers_at-replace_value info_hash k new ps.peers found ∙ rw f refl;
        total = omega (arith, total_len-replace_value info_hash new ps.peers found, len);
        once = rw (at_hash, before) added.once;
        unique = replace_value-UniqueKeys info_hash new ps.peers;
      }

  pub new-IsStored :
      (time count : ℕ)
      → find info_hash ps.peers ≡ none
      → IsStored info_hash addr 1 ps (record ps {
        peers = (info_hash, record { addr = addr; time = time } ∷ []) ∷ ps.peers;
        peers_len = count;
      })
  new-IsStored time count absent =
      let p : StoredPeer = record { addr = addr; time = time } in
      let at_hash : peers_at info_hash ((info_hash, p ∷ []) ∷ ps.peers) ≡ p ∷ [] =
        rw (peers_at, ==_refl info_hash) refl in
      let before : peers_at info_hash ps.peers ≡ [] = rw (peers_at, absent) refl in
      let added = append-IsAdded addr time [] refl in
      record {
        has = rw at_hash added.has;
        keeps = λ a. rw (at_hash, before) (added.keeps a);
        others = λ k f. rw (peers_at, f) refl;
        total = omega arith;
        once = rw (at_hash, before) added.once;
        unique = λ u. (absent, u);
      }
