-- ===== src/Peers/Run.antt =====
-- Any sequence of calls of the table of the peers.
use rust_torrent.Prelude.{
  ℕ, ◌≡◌, refl, Bool, Bool-cases, Option-cases, inl, inr, none, some, List, [], ◌∷◌, ◌==◌, arith,
  subst, ◌∙◌, ap,
}
use mathlib.Core.Option.{some-injective}
use rust_torrent.Prelude.HashMap.{find, UniqueKeys, remove-UniqueKeys, replace_value-UniqueKeys}
use rust_torrent.Peers.{
  PeerState, queued, connecting, live, dead, not_needed, LivePeerState, Peer, Shared, PeerStates,
  idle_to_connecting, AggregatePeerStats,
}
use rust_torrent.Peers.Counters.{
  slot_value, Slot, counts, count-replace_value, IsCounted, mark_peer_not_needed-IsCounted,
  add_if_not_seen-IsCounted, drop_peer-IsCounted, mark_peer_connecting-IsCounted,
  prune_dead_peers-IsCounted,
}
use rust_torrent.Peers.Table.{
  inc_steals, with_peer, on_steal, add_if_not_seen, drop_peer, mark_peer_connecting,
  mark_peer_not_needed, with_live_mut, mark_peer_interested, update_bitfield, put_peer, expired,
  prune_loop, prune_dead_peers,
}

pub data Call (BF Tx : Type 0) : Type 0 where
  add drop not_need : ℕ → Call BF Tx
  connect : Tx → ℕ → Call BF Tx
  interested : ℕ → Bool → Call BF Tx
  has : ℕ → BF → Call BF Tx
  prune : ℕ → Call BF Tx
  -- from a peer, to a peer, a piece
  steal : ℕ → ℕ → ℕ → Call BF Tx

inc_steals-counters :
    (c : Slot) (s : AggregatePeerStats) → slot_value c (inc_steals s) ≡ slot_value c s
inc_steals-counters c s = ground arith

module _ {BF Tx : Type 0} where
  -- A call at an instant; one that returns an error changes nothing.
  unfoldable pub answer : ℕ → Call BF Tx → PeerStates BF Tx → PeerStates BF Tx
  answer now (add addr) ps = (add_if_not_seen now ps addr).1
  answer now (drop handle) ps = (drop_peer ps handle).1
  answer now (not_need handle) ps = (mark_peer_not_needed now ps handle).1
  answer now (connect tx h) ps = elim (mark_peer_connecting now tx ps h) [
    | none ↦ ps
    | some ps' ↦ ps'
  ]
  answer now (interested handle b) ps = mark_peer_interested ps handle b
  answer now (has handle bitfield) ps = update_bitfield ps handle bitfield
  answer now (steal from_peer to_peer stolen_idx) ps = (on_steal ps from_peer to_peer stolen_idx).1
  answer now (prune retention) ps = (prune_dead_peers now ps retention).1

  unfoldable pub answer_all : List (ℕ × Call BF Tx) → PeerStates BF Tx → PeerStates BF Tx
  answer_all [] ps = ps
  answer_all ((now, c) ∷ cs) ps = answer_all cs (answer now c ps)

  -- The counters are right and no address occurs twice.
  pub record IsSound (ps : PeerStates BF Tx) : Type 0 where
    pub counted : IsCounted ps.shared ps.states
    pub unique : UniqueKeys ps.states

  live-counts :
      (c : Slot) (l l' : LivePeerState BF Tx)
      → l'.connection_kind ≡ l.connection_kind
      → counts c (live l') ≡ counts c (live l)
  live-counts c l l' e = ground arith

  with_live_mut-IsSound :
      (ps : PeerStates BF Tx) (addr : ℕ) (f : LivePeerState BF Tx → LivePeerState BF Tx)
      → ((l : LivePeerState BF Tx) → (f l).connection_kind ≡ l.connection_kind)
      → IsSound ps
      → IsSound (with_live_mut ps addr f)
  unfolding with_live_mut
  with_live_mut-IsSound ps addr f same v = elim (Option-cases (find addr ps.states)) [
    | inl absent ↦ rw (with_live_mut, absent) v
    | inr (peer, found) ↦ rw (with_live_mut, found) (by_state peer.state (λ c. refl) found)
  ]
    where
      by_state :
          {peer : Peer BF Tx} (st : PeerState BF Tx)
          → ((c : Slot) → counts c peer.state ≡ counts c st)
          → find addr ps.states ≡ some peer
          → IsSound (elim st [
            | live l ↦ put_peer ps addr (record peer { state = live (f l) }, ps.shared)
            | queued ↦ ps
            | connecting tx ↦ ps
            | dead ↦ ps
            | not_needed ↦ ps
          ])
      by_state queued e found = v
      by_state (connecting tx) e found = v
      by_state dead e found = v
      by_state not_needed e found = v
      by_state {peer} (live l) e found = record {
        counted = λ c.
            let n =
              count-replace_value c addr (record peer { state = live (f l) }) ps.states found in
            ground (arith, n, e c, live-counts c l (f l) (same l), v.counted c);
        unique = replace_value-UniqueKeys addr _ ps.states v.unique;
      }

  with_peer-IsSound :
      (ps : PeerStates BF Tx) (addr : ℕ) (f : Peer BF Tx → Peer BF Tx)
      → ((p : Peer BF Tx) → (f p).state ≡ p.state)
      → IsSound ps
      → IsSound (with_peer ps addr f)
  unfolding with_peer
  with_peer-IsSound ps addr f same v = elim (Option-cases (find addr ps.states)) [
    | inl absent ↦ rw (with_peer, absent) v
    | inr (peer, found) ↦
        rw (with_peer, found)
          (record {
            counted = λ c.
                let n = count-replace_value c addr (f peer) ps.states found in
                let e : counts c (f peer).state ≡ counts c peer.state = ap (counts c) (same peer) in
                ground (arith, n, e, v.counted c);
            unique = replace_value-UniqueKeys addr (f peer) ps.states v.unique;
          })
  ]

  on_steal-IsSound :
      (ps : PeerStates BF Tx) (from_peer to_peer stolen_idx : ℕ)
      → IsSound ps
      → IsSound (on_steal ps from_peer to_peer stolen_idx).1
  unfolding on_steal
  on_steal-IsSound ps from_peer to_peer stolen_idx v =
      let v₁ = with_peer-IsSound ps to_peer _ (λ p. refl) v in
      let v₂ = with_peer-IsSound _ from_peer _ (λ p. refl) v₁ in
      with_live_mut-IsSound _ from_peer _ (λ l. refl)
        (record { counted = λ c. inc_steals-counters c _ ∙ v₂.counted c; unique = v₂.unique })

  find-prune_loop :
      (k now retention : ℕ) (m : List (ℕ × Peer BF Tx)) (shared : Shared)
      → find k m ≡ none
      → find k (prune_loop now retention shared m).2 ≡ none
  unfolding prune_loop
  find-prune_loop k now retention [] shared h = refl
  find-prune_loop k now retention ((j, p) ∷ m) shared h =
      elim (Bool-cases (expired now retention p)) [
        | inl old ↦ rw old (find-prune_loop k now retention m _ (ground (arith, h)))
        | inr kept ↦ elim (Bool-cases (j == k)) [
          | inl t ↦ cc (rw t at h)
          | inr f ↦ rw (kept, f) (find-prune_loop k now retention m shared (rw f at h))
        ]
      ]

  prune_loop-UniqueKeys :
      (now retention : ℕ) (m : List (ℕ × Peer BF Tx)) (shared : Shared)
      → UniqueKeys m
      → UniqueKeys (prune_loop now retention shared m).2
  unfolding prune_loop
  prune_loop-UniqueKeys now retention [] shared u = tt
  prune_loop-UniqueKeys now retention ((j, p) ∷ m) shared u =
      elim (Bool-cases (expired now retention p)) [
        | inl old ↦ rw old (prune_loop-UniqueKeys now retention m _ u.1)
        | inr kept ↦ rw kept (
          find-prune_loop j now retention m shared u.0,
          prune_loop-UniqueKeys now retention m shared u.1,
        )
      ]

  add_if_not_seen-UniqueKeys :
      (now : ℕ) (ps : PeerStates BF Tx) (addr : ℕ)
      → UniqueKeys ps.states
      → UniqueKeys (add_if_not_seen now ps addr).1.states
  unfolding add_if_not_seen
  add_if_not_seen-UniqueKeys now ps addr u = elim (Option-cases (find addr ps.states)) [
    | inl absent ↦ rw (add_if_not_seen, absent) (absent, u)
    | inr (peer, found) ↦ rw (add_if_not_seen, found) u
  ]

  drop_peer-UniqueKeys :
      (ps : PeerStates BF Tx) (handle : ℕ)
      → UniqueKeys ps.states
      → UniqueKeys (drop_peer ps handle).1.states
  unfolding drop_peer
  drop_peer-UniqueKeys ps handle u = elim (Option-cases (find handle ps.states)) [
    | inl absent ↦ rw (drop_peer, absent) u
    | inr (peer, found) ↦ rw (drop_peer, found) (remove-UniqueKeys handle ps.states u)
  ]

  mark_peer_not_needed-UniqueKeys :
      (now : ℕ) (ps : PeerStates BF Tx) (handle : ℕ)
      → UniqueKeys ps.states
      → UniqueKeys (mark_peer_not_needed now ps handle).1.states
  unfolding mark_peer_not_needed
  mark_peer_not_needed-UniqueKeys now ps handle u = elim (Option-cases (find handle ps.states)) [
    | inl absent ↦ rw (mark_peer_not_needed, absent) u
    | inr (peer, found) ↦
        rw (mark_peer_not_needed, found) (replace_value-UniqueKeys handle _ ps.states u)
  ]

  mark_peer_connecting-UniqueKeys :
      (now : ℕ) (tx : Tx) (ps : PeerStates BF Tx) (h : ℕ) {ps' : PeerStates BF Tx}
      → mark_peer_connecting now tx ps h ≡ some ps'
      → UniqueKeys ps.states
      → UniqueKeys ps'.states
  unfolding mark_peer_connecting
  mark_peer_connecting-UniqueKeys now tx ps h {ps'} e u = elim (Option-cases (find h ps.states)) [
    | inl absent ↦ cc (rw (mark_peer_connecting, absent) at e)
    | inr (peer, found) ↦ elim (Option-cases (idle_to_connecting now tx peer ps.shared)) [
      | inl busy ↦ cc (rw (mark_peer_connecting, found, busy) at e)
      | inr (result, idle) ↦
          subst (λ (t : PeerStates BF Tx). UniqueKeys t.states)
            (some-injective _ _ (rw (mark_peer_connecting, found, idle) at e))
            (replace_value-UniqueKeys h result.0 ps.states u)
    ]
  ]

  answer-IsSound :
      (now : ℕ) (c : Call BF Tx) (ps : PeerStates BF Tx) → IsSound ps → IsSound (answer now c ps)
  unfolding answer mark_peer_interested update_bitfield prune_dead_peers
  answer-IsSound now (add addr) ps v = record {
    counted = add_if_not_seen-IsCounted now ps addr v.counted;
    unique = add_if_not_seen-UniqueKeys now ps addr v.unique;
  }
  answer-IsSound now (drop handle) ps v = record {
    counted = drop_peer-IsCounted ps handle v.unique v.counted;
    unique = drop_peer-UniqueKeys ps handle v.unique;
  }
  answer-IsSound now (not_need handle) ps v = record {
    counted = mark_peer_not_needed-IsCounted now ps handle v.counted;
    unique = mark_peer_not_needed-UniqueKeys now ps handle v.unique;
  }
  answer-IsSound now (connect tx h) ps v = elim (Option-cases (mark_peer_connecting now tx ps h)) [
    | inl refused ↦ rw (answer, refused) v
    | inr (ps', e) ↦
        rw (answer, e)
          (record {
            counted = mark_peer_connecting-IsCounted now tx ps h e v.counted;
            unique = mark_peer_connecting-UniqueKeys now tx ps h e v.unique;
          })
  ]
  answer-IsSound now (interested handle b) ps v =
      with_live_mut-IsSound ps handle (λ l. record l { peer_interested = b }) (λ l. refl) v
  answer-IsSound now (has handle bitfield) ps v =
      with_live_mut-IsSound ps handle (λ l. record l { bitfield = bitfield }) (λ l. refl) v
  answer-IsSound now (steal from_peer to_peer stolen_idx) ps v =
      on_steal-IsSound ps from_peer to_peer stolen_idx v
  answer-IsSound now (prune retention) ps v = record {
    counted = prune_dead_peers-IsCounted now ps retention v.counted;
    unique = prune_loop-UniqueKeys now retention ps.states ps.shared v.unique;
  }

  -- If no address occurs twice in the table and each counter of a state or a connection kind in the
  -- statistics of the torrent is the number of its peers in the table, as a u32, both are still so
  -- after any sequence of calls of `add_if_not_seen`, `drop_peer`, `mark_peer_connecting`,
  -- `mark_peer_not_needed`, `mark_peer_interested`, `update_bitfield`, `on_steal` and
  -- `prune_dead_peers`, at any instants.
  pub answer_all-IsSound :
      (cs : List (ℕ × Call BF Tx)) (ps : PeerStates BF Tx) → IsSound ps → IsSound (answer_all cs ps)
  unfolding answer_all
  answer_all-IsSound [] ps v = v
  answer_all-IsSound ((now, c) ∷ cs) ps v =
      answer_all-IsSound cs (answer now c ps) (answer-IsSound now c ps v)
