-- ===== src/RoutingTable/Status.antt =====
-- What marking a node of the routing table says of its status.
use rust_torrent.Prelude.{ℕ, ◌+◌, ◌-◌, ◌<◌, ◌≡◌, none, arith}
use rust_torrent.RoutingTable.{
  inactivity_timeout, RoutingTableNode, good, questionable, bad, status, mark_outgoing_request,
  mark_response, mark_error, mark_last_query,
}

-- A node that is marked with a response is good for the 15 minutes that follow. One that is marked
-- with a request and then with two errors is bad. One that never responded, with fewer than two
-- errors, and is marked with a request and a query at one time is questionable when more than 15
-- minutes have passed.
pub status_lem :
    (n : RoutingTableNode) (t soon late : ℕ)
    → soon - t < inactivity_timeout
    → t + inactivity_timeout < late
    → n.last_response ≡ none
    → n.errors_in_a_row < 2
    → (status soon (mark_response t n) ≡ good)
      × (status soon (mark_error (mark_error (mark_outgoing_request t n))) ≡ bad)
      × (status late (mark_last_query t (mark_outgoing_request t n)) ≡ questionable)
unfolding status mark_response mark_error mark_outgoing_request mark_last_query
status_lem n t soon late h l r e = (ground arith, ground arith, ground arith)
