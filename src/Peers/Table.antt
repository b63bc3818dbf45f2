-- ===== src/Peers/Table.antt =====
-- The methods of `PeerStates`: the table of the peers.
use rust_torrent.Prelude.{
  ℕ, ◌+◌, ◌-◌, Bool, ◌&&◌, Option, none, some, List, [], ◌∷◌, ltb, if◌then◌else◌, not, keep_if,
  ◌==◌,
}
use rust_torrent.Lengths.{ChunkInfo}
use rust_torrent.Wire.{Request}
use rust_torrent.Prelude.HashMap.{find, remove, replace_value}
use rust_torrent.Peers.{
  AggregatePeerStats, LivePeerState, PeerState, queued, connecting, live, dead, not_needed, Peer,
  Shared, PeerStates, atomic_inc, dec, is_terminal, set_state, new_with_outgoing_address,
  idle_to_connecting,
}

abbrev one_more : AggregatePeerStats → AggregatePeerStats
one_more s = record s { queued_count = atomic_inc s.queued_count; seen = atomic_inc s.seen }

abbrev pub inc_steals : AggregatePeerStats → AggregatePeerStats
inc_steals s = record s { steals = atomic_inc s.steals }

-- The `Cancel` messages for the requests of a piece.
abbrev pub cancels : {Tx : Type 0} → ℕ → Tx → List ChunkInfo → List (Tx × Request)
cancels stolen_idx tx [] = []
cancels stolen_idx tx (req ∷ reqs) =
    if req.piece_index == stolen_idx
    then (tx, record { index = stolen_idx; begin = req.offset; length_of = req.size })
      ∷ cancels stolen_idx tx reqs
    else cancels stolen_idx tx reqs

module _ {BF Tx : Type 0} where
  unfoldable pub add_if_not_seen : ℕ → PeerStates BF Tx → ℕ → Option ℕ × PeerStates BF Tx
  add_if_not_seen now ps addr = elim (find addr ps.states) [
    | some peer ↦ (none, ps)
    | none ↦ (
      some addr,
      record {
        shared = record ps.shared {
          session_stats = one_more ps.shared.session_stats;
          stats = one_more ps.shared.stats;
        };
        states = (addr, new_with_outgoing_address now addr) ∷ ps.states;
      },
    )
  ]

  unfoldable pub drop_peer : PeerStates BF Tx → ℕ → Option (Peer BF Tx) × PeerStates BF Tx
  drop_peer ps handle = elim (find handle ps.states) [
    | none ↦ (none, ps)
    | some p ↦ (
      some p,
      record {
        shared = record ps.shared {
          session_stats = dec ps.shared.session_stats p.state;
          stats = dec ps.shared.stats p.state;
        };
        states = remove handle ps.states;
      },
    )
  ]

  -- A change of one peer and of the counters, as `with_peer_mut` makes it.
  abbrev pub put_peer : PeerStates BF Tx → ℕ → Peer BF Tx × Shared → PeerStates BF Tx
  put_peer ps handle result = record {
    shared = result.1;
    states = replace_value handle result.0 ps.states;
  }

  unfoldable pub mark_peer_connecting : ℕ → Tx → PeerStates BF Tx → ℕ → Option (PeerStates BF Tx)
  mark_peer_connecting now tx ps h = elim (find h ps.states) [
    | none ↦ none
    | some peer ↦ elim (idle_to_connecting now tx peer ps.shared) [
      | none ↦ none
      | some result ↦ some (put_peer ps h result)
    ]
  ]

  unfoldable pub mark_peer_not_needed :
      ℕ → PeerStates BF Tx → ℕ → Option (PeerState BF Tx) × PeerStates BF Tx
  mark_peer_not_needed now ps handle = elim (find handle ps.states) [
    | none ↦ (none, ps)
    | some peer ↦
        let (old, peer', shared) = set_state now peer not_needed ps.shared in
        (some old, put_peer ps handle (peer', shared))
  ]

  -- `with_live_mut`, for a change of the live state.
  unfoldable pub with_live_mut :
      PeerStates BF Tx → ℕ → (LivePeerState BF Tx → LivePeerState BF Tx) → PeerStates BF Tx
  with_live_mut ps addr f = elim (find addr ps.states) [
    | none ↦ ps
    | some peer ↦ elim peer.state [
      | live l ↦ put_peer ps addr (record peer { state = live (f l) }, ps.shared)
      | queued ↦ ps
      | connecting tx ↦ ps
      | dead ↦ ps
      | not_needed ↦ ps
    ]
  ]

  unfoldable pub mark_peer_interested : PeerStates BF Tx → ℕ → Bool → PeerStates BF Tx
  mark_peer_interested ps handle is_interested =
      with_live_mut ps handle (λ l. record l { peer_interested = is_interested })

  unfoldable pub update_bitfield : PeerStates BF Tx → ℕ → BF → PeerStates BF Tx
  update_bitfield ps handle bitfield =
      with_live_mut ps handle (λ l. record l { bitfield = bitfield })

  -- A change of one peer through `with_peer`, of its atomic counters.
  unfoldable pub with_peer : PeerStates BF Tx → ℕ → (Peer BF Tx → Peer BF Tx) → PeerStates BF Tx
  with_peer ps addr f = elim (find addr ps.states) [
    | none ↦ ps
    | some peer ↦ put_peer ps addr (f peer, ps.shared)
  ]

  unfoldable pub cancels_of : PeerStates BF Tx → ℕ → ℕ → List (Tx × Request)
  cancels_of ps addr stolen_idx = elim (find addr ps.states) [
    | none ↦ []
    | some peer ↦ elim peer.state [
      | live l ↦ cancels stolen_idx l.tx l.inflight_requests
      | queued ↦ []
      | connecting tx ↦ []
      | dead ↦ []
      | not_needed ↦ []
    ]
  ]

  -- The messages that are sent, and the peers then.
  unfoldable pub on_steal : PeerStates BF Tx → ℕ → ℕ → ℕ → List (Tx × Request) × PeerStates BF Tx
  on_steal ps from_peer to_peer stolen_idx =
      let ps₁ =
        with_peer ps to_peer (λ p. record p { times_i_stole = atomic_inc p.times_i_stole }) in
      let ps₂ =
        with_peer ps₁ from_peer
          (λ p. record p { times_stolen_from_me = atomic_inc p.times_stolen_from_me }) in
      let ps₃ = record ps₂ {
        shared = record ps₂.shared {
          session_stats = inc_steals ps₂.shared.session_stats;
          stats = inc_steals ps₂.shared.stats;
        };
      } in
      (
        cancels_of ps₃ from_peer stolen_idx,
        with_live_mut ps₃ from_peer (λ l. record l {
          inflight_requests =
              keep_if (λ req. not (req.piece_index == stolen_idx)) l.inflight_requests;
        }),
      )

  abbrev pub expired : ℕ → ℕ → Peer BF Tx → Bool
  expired now retention peer =
      is_terminal peer.state && ltb retention (now - peer.last_state_change)

  -- The `retain` of `prune_dead_peers`; `duration_since` is 0 for an instant to come.
  unfoldable pub prune_loop :
      ℕ → ℕ → Shared → List (ℕ × Peer BF Tx) → ℕ × Shared × List (ℕ × Peer BF Tx)
  prune_loop now retention shared [] = (0, shared, [])
  prune_loop now retention shared ((addr, peer) ∷ states) =
      let shared' =
        if expired now retention peer
        then record shared {
          session_stats = dec shared.session_stats peer.state;
          stats = dec shared.stats peer.state;
        }
        else shared in
      let (pruned, shared'', kept) = prune_loop now retention shared' states in
      if expired now retention peer
      then (pruned + 1, shared'', kept)
      else (pruned, shared'', (addr, peer) ∷ kept)

  unfoldable pub prune_dead_peers : ℕ → PeerStates BF Tx → ℕ → ℕ × PeerStates BF Tx
  prune_dead_peers now ps retention =
      let (pruned, shared, states) = prune_loop now retention ps.shared ps.states in
      (pruned, record { shared = shared; states = states })
