-- ===== src/Peers/Counters.antt =====
-- The counters of the states against the table of the peers.
use rust_torrent.Prelude.{
  ℕ, ◌⊎◌, subst, ◌+◌, ◌-◌, ◌≤◌, ◌<◌, ◌≡◌, refl, sym, ◌∙◌, ap, Bool, true, false, Bool-cases,
  Option-cases, inl, inr, Option, none, some, List, [], ◌∷◌, ◌==◌, ==→eq, if◌then◌else◌, u32_mod,
  as_u32, arith,
}
use rust_torrent.Prelude.HashMap.{find, remove, replace_value, UniqueKeys}
use rust_torrent.Peers.{
  ConnectionKind, tcp, utp, socks, AggregatePeerStats, PeerState, queued, connecting, live, dead,
  not_needed, Peer, Shared, PeerStates, counter, new_with_outgoing_address, idle_to_connecting,
  live_kind_counter, inc, dec, incdec, set_state,
}
use mathlib.Core.Option.{some-injective}
use rust_torrent.Peers.Table.{
  add_if_not_seen, drop_peer, mark_peer_connecting, mark_peer_not_needed, expired, prune_loop,
  prune_dead_peers,
}

pub data Slot : Type 0 where
  queued_slot connecting_slot live_slot tcp_slot utp_slot socks_slot dead_slot not_needed_slot :
      Slot

abbrev pub slot_value : Slot → AggregatePeerStats → ℕ
slot_value queued_slot s = s.queued_count
slot_value connecting_slot s = s.connecting_count
slot_value live_slot s = s.live_count
slot_value tcp_slot s = s.live_tcp
slot_value utp_slot s = s.live_utp
slot_value socks_slot s = s.live_socks
slot_value dead_slot s = s.dead_count
slot_value not_needed_slot s = s.not_needed_count

abbrev pub bit : Bool → ℕ
bit b = if b then 1 else 0

abbrev kind_slot : Slot → ConnectionKind → Bool
kind_slot tcp_slot tcp = true
kind_slot utp_slot utp = true
kind_slot socks_slot socks = true
kind_slot live_slot k = true
kind_slot _ _ = false

bit-le : (b : Bool) → bit b ≤ 1
bit-le b = ground arith

module _ {BF Tx : Type 0} where
  -- The states that a counter counts.
  abbrev pub counts : Slot → PeerState BF Tx → Bool
  counts queued_slot queued = true
  counts connecting_slot (connecting tx) = true
  counts dead_slot dead = true
  counts not_needed_slot not_needed = true
  counts c (live l) = kind_slot c l.connection_kind
  counts _ _ = false

  abbrev pub count : Slot → List (ℕ × Peer BF Tx) → ℕ
  count c [] = 0
  count c ((addr, p) ∷ m) = bit (counts c p.state) + count c m

  inc_value :
      (c : Slot) (s : AggregatePeerStats) (st : PeerState BF Tx)
      → slot_value c s < u32_mod
      → slot_value c (inc s st) ≡ as_u32 (slot_value c s + bit (counts c st))
  unfolding inc counter live_kind_counter
  inc_value c s st h = ground arith

  dec_value :
      (c : Slot) (s : AggregatePeerStats) (st : PeerState BF Tx)
      → slot_value c s < u32_mod
      → slot_value c (dec s st) ≡ as_u32 (slot_value c s + (u32_mod - bit (counts c st)))
  unfolding dec counter live_kind_counter
  dec_value c s st h = ground arith

  pub count-replace_value :
      (c : Slot) (k : ℕ) (new : Peer BF Tx) {old : Peer BF Tx} (m : List (ℕ × Peer BF Tx))
      → find k m ≡ some old
      → count c (replace_value k new m) + bit (counts c old.state)
        ≡ count c m + bit (counts c new.state)
  count-replace_value c k new [] h = cc
  count-replace_value c k new {old} ((j, p) ∷ m) h = elim (Bool-cases (j == k)) [
    | inl t ↦
        let same = some-injective _ _ (rw t at h) in
        rw t (omega (arith, ap (λ (q : Peer BF Tx). bit (counts c q.state)) same))
    | inr f ↦ rw f (omega (arith, count-replace_value c k new m (rw f at h)))
  ]

  remove-absent : (k : ℕ) (m : List (ℕ × Peer BF Tx)) → find k m ≡ none → remove k m ≡ m
  remove-absent k [] h = refl
  remove-absent k ((j, p) ∷ m) h = elim (Bool-cases (j == k)) [
    | inl t ↦ cc (rw t at h)
    | inr f ↦ rw f (ap (λ (r : List (ℕ × Peer BF Tx)). (j, p) ∷ r) (remove-absent k m (rw f at h)))
  ]

  count-remove :
      (c : Slot) (k : ℕ) {old : Peer BF Tx} (m : List (ℕ × Peer BF Tx))
      → UniqueKeys m
      → find k m ≡ some old
      → count c (remove k m) + bit (counts c old.state) ≡ count c m
  count-remove c k [] u h = cc
  count-remove c k {old} ((j, p) ∷ m) u h = elim (Bool-cases (j == k)) [
    | inl t ↦
        let same = some-injective _ _ (rw t at h) in
        let absent = ap (λ (i : ℕ). find i m) (sym (==→eq j k t)) ∙ u.0 in
        rw t (
          omega (
            arith,
            ap (λ (q : Peer BF Tx). bit (counts c q.state)) same,
            ap (count c) (remove-absent k m absent),
          ))
    | inr f ↦ rw f (omega (arith, count-remove c k m u.1 (rw f at h)))
  ]

  -- Each counter of the torrent is the number of the peers in its state.
  abbrev pub IsCounted : Shared → List (ℕ × Peer BF Tx) → Type 0
  IsCounted shared m = (c : Slot) → slot_value c shared.stats ≡ as_u32 (count c m)

  incdec_value :
      (c : Slot) (s : AggregatePeerStats) (old new : PeerState BF Tx) (n n' : ℕ)
      → slot_value c s ≡ as_u32 n
      → n' + bit (counts c old) ≡ n + bit (counts c new)
      → slot_value c (incdec s old new) ≡ as_u32 n'
  unfolding incdec
  incdec_value c s old new n n' h e =
      let d = dec_value c s old (omega arith) in
      omega (
        arith,
        d,
        inc_value c (dec s old) new (omega (arith, d)),
        bit-le (counts c old),
        bit-le (counts c new),
      )

  set_state-IsCounted :
      (now : ℕ) (shared : Shared) (m : List (ℕ × Peer BF Tx)) (h : ℕ) {peer : Peer BF Tx}
      (new : PeerState BF Tx)
      → find h m ≡ some peer
      → IsCounted shared m
      → IsCounted
          (set_state now peer new shared).2
          (replace_value h (set_state now peer new shared).1 m)
  unfolding set_state
  set_state-IsCounted now shared m h {peer} new found counted = λ c.
      incdec_value c shared.stats peer.state new (count c m) _ (counted c)
        (count-replace_value c h (record peer { state = new; last_state_change = now }) m found)

  -- If each counter of a state or a connection kind in the statistics of the torrent is the number
  -- of its peers in the table, as a u32, it still is after `mark_peer_not_needed`.
  pub mark_peer_not_needed-IsCounted :
      (now : ℕ) (ps : PeerStates BF Tx) (handle : ℕ)
      → IsCounted ps.shared ps.states
      → let ps' = (mark_peer_not_needed now ps handle).1 in IsCounted ps'.shared ps'.states
  unfolding mark_peer_not_needed
  mark_peer_not_needed-IsCounted now ps handle counted =
      elim (Option-cases (find handle ps.states)) [
        | inl absent ↦ rw (mark_peer_not_needed, absent) counted
        | inr (peer, found) ↦
            rw (mark_peer_not_needed, found)
              (set_state-IsCounted now ps.shared ps.states handle not_needed found counted)
      ]

  -- If each counter of a state or a connection kind in the statistics of the torrent is the number
  -- of its peers in the table, as a u32, it still is after `add_if_not_seen`.
  pub add_if_not_seen-IsCounted :
      (now : ℕ) (ps : PeerStates BF Tx) (addr : ℕ)
      → IsCounted ps.shared ps.states
      → let ps' = (add_if_not_seen now ps addr).1 in IsCounted ps'.shared ps'.states
  unfolding add_if_not_seen new_with_outgoing_address
  add_if_not_seen-IsCounted now ps addr counted = elim (Option-cases (find addr ps.states)) [
    | inl absent ↦ rw (add_if_not_seen, absent) (λ c. ground (arith, counted c))
    | inr (peer, found) ↦ rw (add_if_not_seen, found) counted
  ]

  decreased :
      (c : Slot) (s : AggregatePeerStats) (old : PeerState BF Tx) (n n' : ℕ)
      → slot_value c s ≡ as_u32 n
      → n' + bit (counts c old) ≡ n
      → slot_value c (dec s old) ≡ as_u32 n'
  decreased c s old n n' h e = omega (arith, dec_value c s old (omega arith), bit-le (counts c old))

  -- If no address occurs twice in the table and each counter of a state or a connection kind in the
  -- statistics of the torrent is the number of its peers in the table, as a u32, it still is after
  -- `drop_peer`.
  pub drop_peer-IsCounted :
      (ps : PeerStates BF Tx) (handle : ℕ)
      → UniqueKeys ps.states
      → IsCounted ps.shared ps.states
      → let ps' = (drop_peer ps handle).1 in IsCounted ps'.shared ps'.states
  unfolding drop_peer
  drop_peer-IsCounted ps handle unique counted = elim (Option-cases (find handle ps.states)) [
    | inl absent ↦ rw (drop_peer, absent) counted
    | inr (peer, found) ↦
        rw (drop_peer, found)
          (λ c.
            decreased c ps.shared.stats peer.state _ _ (counted c)
              (count-remove c handle ps.states unique found))
  ]

  abbrev after_connect : ℕ → Tx → Peer BF Tx → Shared → Peer BF Tx × Shared
  after_connect now tx peer shared =
      ((set_state now peer (connecting tx) shared).1, (set_state now peer (connecting tx) shared).2)

  idle_to_connecting-cases :
      (now : ℕ) (tx : Tx) (peer : Peer BF Tx) (shared : Shared)
      → (idle_to_connecting now tx peer shared ≡ none)
        ⊎ (idle_to_connecting now tx peer shared ≡ some (after_connect now tx peer shared))
  unfolding idle_to_connecting
  idle_to_connecting-cases now tx peer shared = by_state peer.state
    where
      by_state :
          (st : PeerState BF Tx)
          → let o : Option (Peer BF Tx × Shared) = elim st [
            | queued ↦ some (after_connect now tx peer shared)
            | not_needed ↦ some (after_connect now tx peer shared)
            | connecting tx' ↦ none
            | live l ↦ none
            | dead ↦ none
          ] in
            (o ≡ none) ⊎ (o ≡ some (after_connect now tx peer shared))
      by_state queued = inr refl
      by_state not_needed = inr refl
      by_state (connecting tx') = inl refl
      by_state (live l) = inl refl
      by_state dead = inl refl

  -- If each counter of a state or a connection kind in the statistics of the torrent is the number
  -- of its peers in the table, as a u32, and `mark_peer_connecting` succeeds, it still is
  -- afterwards.
  pub mark_peer_connecting-IsCounted :
      (now : ℕ) (tx : Tx) (ps : PeerStates BF Tx) (h : ℕ) {ps' : PeerStates BF Tx}
      → mark_peer_connecting now tx ps h ≡ some ps'
      → IsCounted ps.shared ps.states
      → IsCounted ps'.shared ps'.states
  unfolding mark_peer_connecting
  mark_peer_connecting-IsCounted now tx ps h {ps'} e counted =
      elim (Option-cases (find h ps.states)) [
        | inl absent ↦ cc (rw (mark_peer_connecting, absent) at e)
        | inr (peer, found) ↦ elim (idle_to_connecting-cases now tx peer ps.shared) [
          | inl busy ↦ cc (rw (mark_peer_connecting, found, busy) at e)
          | inr idle ↦
              subst (λ (t : PeerStates BF Tx). IsCounted t.shared t.states)
                (some-injective _ _ (rw (mark_peer_connecting, found, idle) at e))
                (set_state-IsCounted now ps.shared ps.states h (connecting tx) found counted)
        ]
      ]

  prune_loop-counted :
      (now retention : ℕ) (shared : Shared) (m : List (ℕ × Peer BF Tx)) (others : Slot → ℕ)
      → ((c : Slot) → slot_value c shared.stats ≡ as_u32 (count c m + others c))
      → let r = prune_loop now retention shared m in
        (c : Slot) → slot_value c r.1.stats ≡ as_u32 (count c r.2 + others c)
  unfolding prune_loop
  prune_loop-counted now retention shared [] others h = h
  prune_loop-counted now retention shared ((addr, p) ∷ m) others h =
      elim (Bool-cases (expired now retention p)) [
        | inl old ↦ rw old (
            prune_loop-counted now retention
              (record shared {
                session_stats = dec shared.session_stats p.state;
                stats = dec shared.stats p.state;
              })
              m others
              (λ c.
                decreased c shared.stats p.state (bit (counts c p.state) + count c m + others c)
                  (count c m + others c) (h c) (omega arith)))
        | inr kept ↦ rw kept (λ c.
            prune_loop-counted now retention shared m (λ d. others d + bit (counts d p.state))
              (λ d. h d ∙ ap as_u32 (omega arith)) c
            ∙ ap as_u32 (omega arith))
      ]

  -- If each counter of a state or a connection kind in the statistics of the torrent is the number
  -- of its peers in the table, as a u32, it still is after `prune_dead_peers`.
  pub prune_dead_peers-IsCounted :
      (now : ℕ) (ps : PeerStates BF Tx) (retention : ℕ)
      → IsCounted ps.shared ps.states
      → let ps' = (prune_dead_peers now ps retention).1 in IsCounted ps'.shared ps'.states
  unfolding prune_dead_peers
  prune_dead_peers-IsCounted now ps retention counted = λ c.
      prune_loop-counted now retention ps.shared ps.states (λ d. 0)
        (λ d. counted d ∙ ap as_u32 (omega arith)) c
      ∙ ap as_u32 (omega arith)
