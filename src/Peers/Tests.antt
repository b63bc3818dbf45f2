-- ===== src/Peers/Tests.antt =====
-- A table of two peers, of which the first has died and the second is queued.
use rust_torrent.Prelude.{ℕ, ◌≡◌, refl, Bool, some, List, [], ◌∷◌}
use rust_torrent.Peers.{
  AggregatePeerStats, PeerState, queued, connecting, dead, Peer, Shared, PeerStates, set_state,
  idle_to_connecting,
}
use rust_torrent.Peers.Table.{mark_peer_connecting, put_peer, prune_loop, prune_dead_peers}
use rust_torrent.Peers.Counters.{
  queued_slot, connecting_slot, live_slot, tcp_slot, utp_slot, socks_slot, dead_slot,
  not_needed_slot, IsCounted,
}
use rust_torrent.Peers.Run.{
  Call, add, drop, not_need, connect, prune, answer_all, IsSound, answer_all-IsSound,
}

abbrev two_stats : AggregatePeerStats
two_stats = record {
  queued_count = 1;
  connecting_count = 0;
  live_count = 0;
  live_tcp = 0;
  live_utp = 0;
  live_socks = 0;
  seen = 2;
  dead_count = 1;
  not_needed_count = 0;
  steals = 0;
}

abbrev peer_at : ℕ → PeerState (List Bool) ℕ → Peer (List Bool) ℕ
peer_at a st = record {
  addr = a;
  state = st;
  outgoing_connections = 0;
  times_i_stole = 0;
  times_stolen_from_me = 0;
  outgoing_address = some a;
  last_state_change = 0;
}

abbrev two_shared : Shared
two_shared = record { session_stats = two_stats; stats = two_stats; live_outgoing_peers = [] }

abbrev two_peers : PeerStates (List Bool) ℕ
two_peers = record {
  shared = two_shared;
  states = (1, peer_at 1 dead) ∷ (2, peer_at 2 queued) ∷ [];
}

two_peers-IsCounted : IsCounted two_peers.shared two_peers.states
two_peers-IsCounted queued_slot = refl
two_peers-IsCounted connecting_slot = refl
two_peers-IsCounted live_slot = refl
two_peers-IsCounted tcp_slot = refl
two_peers-IsCounted utp_slot = refl
two_peers-IsCounted socks_slot = refl
two_peers-IsCounted dead_slot = refl
two_peers-IsCounted not_needed_slot = refl

-- The second peer is connecting.
abbrev connecting_peers : PeerStates (List Bool) ℕ
connecting_peers =
    let (old, peer, shared) = set_state 10 (peer_at 2 queued) (connecting 5) two_shared in
    put_peer two_peers 2 (peer, shared)

connects : mark_peer_connecting 10 5 two_peers 2 ≡ some connecting_peers
unfolding mark_peer_connecting idle_to_connecting
connects = refl

prunes_one : (prune_dead_peers 10 two_peers 3).0 ≡ 1
unfolding prune_dead_peers prune_loop
prunes_one = refl

abbrev some_calls : List (ℕ × Call (List Bool) ℕ)
some_calls =
    (3, connect 5 2)
    ∷ (4, drop 1)
    ∷ (5, add 7)
    ∷ (6, connect 5 9)
    ∷ (7, not_need 7)
    ∷ (9, prune 1)
    ∷ []

answer_all-IsSound_example : IsSound (answer_all some_calls two_peers)
answer_all-IsSound_example =
    answer_all-IsSound some_calls two_peers
      (record { counted = two_peers-IsCounted; unique = (refl, (refl, tt)) })
