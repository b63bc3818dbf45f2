-- ===== src/Peers.antt =====
-- crates/librtbit/src/torrent_state/live/peer/mod.rs and live/peers: the peers of a live torrent, their
-- states, and the counters of the states. `Tx` is the sender of a tokio channel, and `now` one reading
-- of the clock for a call. A result of a method stands before the state that it leaves.
pub mod Table
pub mod Counters
pub mod Run
pub mod Tests
use rust_torrent.Prelude.{
  ℕ, ◌-◌, Bool, true, false, not, ◌&&◌, Option, none, some, List, [], ◌∷◌, ◌==◌, ltb, if◌then◌else◌,
  keep_if, add_u32, sub_u32,
}
use rust_torrent.Prelude.HashMap
use rust_torrent.Prelude.Members.{member}
use rust_torrent.Outcome.{Outcome, ok, bail, panicked}
use rust_torrent.Lengths.{ChunkInfo}
use rust_torrent.Bits.{Bits, all_range}

pub data ConnectionKind : Type 0 where
  tcp utp socks : ConnectionKind

pub record LivePeerState (BF Tx : Type 0) : Type 0 where
  pub peer_id : ℕ
  pub peer_interested : Bool
  pub bitfield : BF
  pub inflight_requests : List ChunkInfo
  pub tx : Tx
  pub connection_kind : ConnectionKind

pub data PeerState (BF Tx : Type 0) : Type 0 where
  queued : PeerState BF Tx
  connecting : Tx → PeerState BF Tx
  live : LivePeerState BF Tx → PeerState BF Tx
  dead not_needed : PeerState BF Tx

-- Of the statistics of a peer, only those that are read or counted here.
pub record Peer (BF Tx : Type 0) : Type 0 where
  pub addr : ℕ
  pub state : PeerState BF Tx
  pub outgoing_connections : ℕ
  pub times_i_stole : ℕ
  pub times_stolen_from_me : ℕ
  pub outgoing_address : Option ℕ
  pub last_state_change : ℕ

pub record AggregatePeerStats : Type 0 where
  pub queued_count : ℕ
  pub connecting_count : ℕ
  pub live_count : ℕ
  pub live_tcp : ℕ
  pub live_utp : ℕ
  pub live_socks : ℕ
  pub seen : ℕ
  pub dead_count : ℕ
  pub not_needed_count : ℕ
  pub steals : ℕ

-- The part of `PeerStates` beside the map.
pub record Shared : Type 0 where
  pub session_stats : AggregatePeerStats
  pub stats : AggregatePeerStats
  pub live_outgoing_peers : List ℕ

pub record PeerStates (BF Tx : Type 0) : Type 0 where
  pub shared : Shared
  pub states : List (ℕ × Peer BF Tx)

-- `fetch_add(1)` and `fetch_sub(1)`
abbrev pub atomic_inc : ℕ → ℕ
atomic_inc n = add_u32 n 1

abbrev pub atomic_dec : ℕ → ℕ
atomic_dec n = sub_u32 n 1

abbrev pub set_insert : ℕ → List ℕ → List ℕ
set_insert a s = if member a s then s else a ∷ s

abbrev pub set_remove : ℕ → List ℕ → List ℕ
set_remove a s = keep_if (λ b. not (b == a)) s

abbrev pub kind_counter : (ℕ → ℕ) → AggregatePeerStats → ConnectionKind → AggregatePeerStats
kind_counter f s tcp = record s { live_tcp = f s.live_tcp }
kind_counter f s utp = record s { live_utp = f s.live_utp }
kind_counter f s socks = record s { live_socks = f s.live_socks }

module _ {BF Tx : Type 0} where
  -- `counter`, and a change of it
  unfoldable pub counter : (ℕ → ℕ) → AggregatePeerStats → PeerState BF Tx → AggregatePeerStats
  counter f s queued = record s { queued_count = f s.queued_count }
  counter f s (connecting tx) = record s { connecting_count = f s.connecting_count }
  counter f s (live l) = record s { live_count = f s.live_count }
  counter f s dead = record s { dead_count = f s.dead_count }
  counter f s not_needed = record s { not_needed_count = f s.not_needed_count }

  unfoldable pub live_kind_counter :
      (ℕ → ℕ) → AggregatePeerStats → PeerState BF Tx → AggregatePeerStats
  live_kind_counter f s queued = s
  live_kind_counter f s (connecting tx) = s
  live_kind_counter f s (live l) = kind_counter f s l.connection_kind
  live_kind_counter f s dead = s
  live_kind_counter f s not_needed = s

  unfoldable pub inc : AggregatePeerStats → PeerState BF Tx → AggregatePeerStats
  inc s state = counter atomic_inc (live_kind_counter atomic_inc s state) state

  unfoldable pub dec : AggregatePeerStats → PeerState BF Tx → AggregatePeerStats
  dec s state = counter atomic_dec (live_kind_counter atomic_dec s state) state

  unfoldable pub incdec :
      AggregatePeerStats → PeerState BF Tx → PeerState BF Tx → AggregatePeerStats
  incdec s old new = inc (dec s old) new

  abbrev pub is_live : PeerState BF Tx → Bool
  is_live (live l) = true
  is_live queued = false
  is_live (connecting tx) = false
  is_live dead = false
  is_live not_needed = false

  abbrev pub is_terminal : PeerState BF Tx → Bool
  is_terminal dead = true
  is_terminal not_needed = true
  is_terminal queued = false
  is_terminal (connecting tx) = false
  is_terminal (live l) = false

  abbrev pub is_active : PeerState BF Tx → Bool
  is_active (connecting tx) = true
  is_active (live l) = true
  is_active queued = false
  is_active dead = false
  is_active not_needed = false

  -- What `set_state` does to the set of live outgoing peers.
  abbrev pub update_outgoing : Peer BF Tx → PeerState BF Tx → List ℕ → List ℕ
  update_outgoing peer new s = elim peer.outgoing_address [
    | none ↦ s
    | some addr ↦
        let s' = if is_live peer.state then set_remove addr s else s in
        if is_live new && ltb 0 peer.outgoing_connections then set_insert addr s' else s'
  ]

  unfoldable pub set_state :
      ℕ → Peer BF Tx → PeerState BF Tx → Shared → PeerState BF Tx × Peer BF Tx × Shared
  set_state now peer new shared = (
    peer.state,
    record peer { state = new; last_state_change = now },
    record {
      session_stats = incdec shared.session_stats peer.state new;
      stats = incdec shared.stats peer.state new;
      live_outgoing_peers = update_outgoing peer new shared.live_outgoing_peers;
    },
  )

  unfoldable pub new_with_outgoing_address : ℕ → ℕ → Peer BF Tx
  new_with_outgoing_address now addr = record {
    addr = addr;
    state = queued;
    outgoing_connections = 0;
    times_i_stole = 0;
    times_stolen_from_me = 0;
    outgoing_address = some addr;
    last_state_change = now;
  }

  abbrev pub take_state : ℕ → Peer BF Tx → Shared → PeerState BF Tx × Peer BF Tx × Shared
  take_state now peer shared = set_state now peer queued shared

  -- The end of `reconnect_not_needed_peer`.
  unfoldable pub reconnect_not_needed_peer :
      ℕ → Peer BF Tx → Shared → Option ℕ × Peer BF Tx × Shared
  reconnect_not_needed_peer now peer shared = elim peer.state [
    | not_needed ↦ elim peer.outgoing_address [
      | none ↦ (none, peer, shared)
      | some socket_addr ↦
          let (old, peer', shared') = set_state now peer queued shared in
          if peer.addr == socket_addr
          then (some socket_addr, peer', shared')
          else (some socket_addr, peer, shared)
    ]
    | queued ↦ (none, peer, shared)
    | connecting tx ↦ (none, peer, shared)
    | live l ↦ (none, peer, shared)
    | dead ↦ (none, peer, shared)
  ]

  -- The channel that is made is an argument.
  unfoldable pub idle_to_connecting : ℕ → Tx → Peer BF Tx → Shared → Option (Peer BF Tx × Shared)
  idle_to_connecting now tx peer shared =
      let (old, peer', shared') = set_state now peer (connecting tx) shared in
      elim peer.state [
        | queued ↦ some (peer', shared')
        | not_needed ↦ some (peer', shared')
        | connecting tx' ↦ none
        | live l ↦ none
        | dead ↦ none
      ]

  -- A live peer whose bitfield is still empty: `LivePeerState::new`.
  abbrev pub new_live : BF → ℕ → Tx → Bool → ConnectionKind → LivePeerState BF Tx
  new_live empty peer_id tx initial_interested connection_kind = record {
    peer_id = peer_id;
    peer_interested = initial_interested;
    bitfield = empty;
    inflight_requests = [];
    tx = tx;
    connection_kind = connection_kind;
  }

  -- The match on the state that was taken.
  unfoldable pub when_idle : PeerState BF Tx → Peer BF Tx × Shared → Outcome (Peer BF Tx × Shared)
  when_idle queued result = ok result
  when_idle dead result = ok result
  when_idle not_needed result = ok result
  when_idle (connecting tx) result = panicked
  when_idle (live l) result = panicked

  -- `bail` is `AlreadyActive`, `panicked` the `unreachable!()`; `empty` is `BF::default()`.
  unfoldable pub incoming_connection :
      ℕ → BF → Peer BF Tx → ℕ → Tx → Shared → ConnectionKind → Outcome (Peer BF Tx × Shared)
  incoming_connection now empty peer peer_id tx shared connection_kind =
      let (taken, peer₁, shared₁) = take_state now peer shared in
      let (old, peer₂, shared₂) =
        set_state now peer₁ (live (new_live empty peer_id tx true connection_kind)) shared₁ in
      if is_active peer.state then bail else when_idle taken (peer₂, shared₂)

  -- The state that is taken is the one that was tested, so the `unreachable!()` has no case here.
  unfoldable pub connecting_to_live :
      ℕ → BF → Peer BF Tx → ℕ → Shared → ConnectionKind → Option (Peer BF Tx × Shared)
  connecting_to_live now empty peer peer_id shared conn_kind =
      let (taken, peer₁, shared₁) = take_state now peer shared in
      elim peer.state [
        | connecting tx ↦
            let (old, peer₂, shared₂) =
              set_state now peer₁ (live (new_live empty peer_id tx false conn_kind)) shared₁ in
            some (peer₂, shared₂)
        | queued ↦ none
        | live l ↦ none
        | dead ↦ none
        | not_needed ↦ none
      ]

  -- The counters and the set after a peer is destroyed.
  unfoldable pub destroy : Peer BF Tx → Shared → Shared
  destroy peer shared = record {
    session_stats = dec shared.session_stats peer.state;
    stats = dec shared.stats peer.state;
    live_outgoing_peers = elim peer.outgoing_address [
      | none ↦ shared.live_outgoing_peers
      | some addr ↦
          if is_live peer.state
          then set_remove addr shared.live_outgoing_peers
          else shared.live_outgoing_peers
    ];
  }
