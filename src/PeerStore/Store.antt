-- ===== src/PeerStore/Store.antt =====
-- What a call of `store_peer` answers.
use rust_torrent.Prelude.{
  ℕ, ◌<◌, ◌≡◌, refl, ◌==◌, ◌⊎◌, inl, inr, Bool, true, false, not, Bool-cases, ◌&&◌, ◌||◌,
  Option-cases, [], ◌∷◌, ◌++◌, length-append, ltb, leb, if◌then◌else◌, add_u32, arith,
}
use rust_torrent.Prelude.HashMap.{find}
use rust_torrent.RoutingTable.{distance}
use rust_torrent.PeerStore.{
  AnnouncePeer, PeerStore, has_token, has_addr, refresh, peer_addr, store_entry, store_peer,
}
use rust_torrent.Addresses.{SocketAddr}
use rust_torrent.PeerStore.Evict.{peers_at}
use rust_torrent.PeerStore.Announce.{
  IsStored, refresh-IsAdded, append-IsAdded, length-refresh, replaced-IsStored, new-IsStored,
}

-- The count of the store grows by `n`, which is 1 at most, if there is room.
pub record IsCounted (n : ℕ) (ps ps' : PeerStore) : Type 0 where
  pub len_eq : ps'.peers_len ≡ (if n == 0 then ps.peers_len else add_u32 ps.peers_len 1)
  pub room : (n ≡ 0) ⊎ ((n ≡ 1) × (ps.peers_len < ps.max_remembered_peers))
  pub tokens_eq : ps'.tokens ≡ ps.tokens
  pub max_eq : ps'.max_remembered_peers ≡ ps.max_remembered_peers
  pub max_tokens_eq : ps'.max_remembered_tokens ≡ ps.max_remembered_tokens

-- Whether an address can be stored without more room.
abbrev pub is_known : ℕ → SocketAddr → PeerStore → Bool
is_known info_hash addr ps = has_addr addr (peers_at info_hash ps.peers)

abbrev pub Stores : ℕ → SocketAddr → PeerStore → Bool × PeerStore → Type 0
Stores info_hash addr ps r =
    (r.0 ≡ true) × (n : ℕ) × IsStored info_hash addr n ps r.1 × IsCounted n ps r.1

abbrev pub Refuses : PeerStore → Bool × PeerStore → Type 0
Refuses ps r = (r.0 ≡ false) × (r.1 ≡ ps)

module _ (now info_hash : ℕ) (addr : SocketAddr) (ps : PeerStore) where
  store_entry-cases :
      let full = leb ps.max_remembered_peers ps.peers_len && not (is_known info_hash addr ps) in
      ((full ≡ false) × Stores info_hash addr ps (store_entry now info_hash addr ps))
      ⊎ ((full ≡ true) × Refuses ps (store_entry now info_hash addr ps))
  unfolding store_entry
  store_entry-cases = elim (Option-cases (find info_hash ps.peers)) [
    | inr (old, found) ↦ elim (Bool-cases (has_addr addr old)) [
      | inl known ↦ inl (
        rw (peers_at, found, known) (ground arith),
        rw (store_entry, found, known)
            (
              refl,
              0,
              replaced-IsStored info_hash addr ps old (refresh now addr old) ps.peers_len found
                  (refresh-IsAdded now addr old known) 0
                  (omega (arith, length-refresh now addr old)),
              record {
                len_eq = refl;
                room = inl refl;
                tokens_eq = refl;
                max_eq = refl;
                max_tokens_eq = refl;
              },
            ),
      )
      | inr unknown ↦ elim (Bool-cases (leb ps.max_remembered_peers ps.peers_len)) [
        | inl full ↦ inr (
          rw (peers_at, found, unknown, full) refl,
          rw (store_entry, found, unknown, full) (refl, refl),
        )
        | inr room ↦ inl (
          rw room refl,
          rw (store_entry, found, unknown, room)
              (
                refl,
                1,
                replaced-IsStored info_hash addr ps old
                    (old ++ (record { addr = addr; time = now } ∷ [])) (add_u32 ps.peers_len 1)
                    found (append-IsAdded addr now old unknown) 1 (length-append old _),
                record {
                  len_eq = refl;
                  room = inr (refl, ground (arith, room));
                  tokens_eq = refl;
                  max_eq = refl;
                  max_tokens_eq = refl;
                },
              ),
        )
      ]
    ]
    | inl absent ↦ elim (Bool-cases (leb ps.max_remembered_peers ps.peers_len)) [
      | inl full ↦
          inr (rw (peers_at, absent, full) refl, rw (store_entry, absent, full) (refl, refl))
      | inr room ↦ inl (
        rw room refl,
        rw (store_entry, absent, room)
            (
              refl,
              1,
              new-IsStored info_hash addr ps now (add_u32 ps.peers_len 1) absent,
              record {
                len_eq = refl;
                room = inr (refl, ground (arith, room));
                tokens_eq = refl;
                max_eq = refl;
                max_tokens_eq = refl;
              },
            ),
      )
    ]
  ]

-- The three reasons to refuse an announcement.
abbrev pub too_far : AnnouncePeer → PeerStore → Bool
too_far announce ps = ltb ps.max_distance (distance announce.info_hash ps.self_id)

abbrev pub is_full : AnnouncePeer → SocketAddr → PeerStore → Bool
is_full announce addr ps =
    leb ps.max_remembered_peers ps.peers_len
    && not (is_known announce.info_hash (peer_addr announce addr) ps)

-- In any peer store, `store_peer` answers false and changes nothing exactly if the info hash is too
-- far away, no token matches, or the store is full and the address is not stored under the info
-- hash. Otherwise it answers true, the address is stored under the info hash with all that were
-- there, the other info hashes have the peers that they had, and there are as many peers and the
-- same `peers_len`, or one more peer, if there was room, and one more in `peers_len` as a u32.
pub store_peer_lem :
    (now : ℕ) (announce : AnnouncePeer) (addr : SocketAddr) (ps : PeerStore)
    → let r = store_peer now announce addr ps in
      let refused =
        too_far announce ps
        || (not (has_token announce addr ps.tokens) || is_full announce addr ps) in
      ((refused ≡ false) × Stores announce.info_hash (peer_addr announce addr) ps r)
      ⊎ ((refused ≡ true) × Refuses ps r)
unfolding store_peer
store_peer_lem now announce addr ps = elim (Bool-cases (too_far announce ps)) [
  | inl far ↦ inr (rw far refl, rw (store_peer, far) (refl, refl))
  | inr near ↦ elim (Bool-cases (has_token announce addr ps.tokens)) [
    | inr unknown ↦ inr (rw (near, unknown) refl, rw (store_peer, near, unknown) (refl, refl))
    | inl known ↦
        rw (store_peer, near, known)
          (store_entry-cases now announce.info_hash (peer_addr announce addr) ps)
  ]
]
