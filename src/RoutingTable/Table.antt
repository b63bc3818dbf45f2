-- ===== src/RoutingTable/Table.antt =====
-- `RoutingTable` of crates/librtbit-dht/src/routing_table.rs.
use rust_torrent.Prelude.{ℕ, ◌+◌, Bool, true, false, Option, none, some, if◌then◌else◌, ◌>>=◌}
use rust_torrent.RoutingTable.{
  RoutingTableNode, mark_outgoing_request, mark_response, mark_error, mark_last_query, InsertResult,
  was_existing, replaced_bad, added, ignored, RoutingTable,
}
use rust_torrent.RoutingTable.Tree.{new_tree, add_to_tree, get_mut}

unfoldable pub new_table : ℕ → ℕ → Option ℕ → RoutingTable
new_table now id max_size = record {
  id = id;
  size = 0;
  buckets = new_tree now (elim max_size [ none ↦ 512 | some m ↦ m ]);
}

abbrev pub replaced : InsertResult → Bool
replaced was_existing = false
replaced (replaced_bad n) = true
replaced added = true
replaced ignored = false

unfoldable pub add_node : ℕ → ℕ → ℕ → RoutingTable → Option (InsertResult × RoutingTable)
add_node now id addr rt = add_to_tree now rt.id id addr rt.buckets >>= λ (res, buckets).
    some
      (res, record rt { buckets = buckets; size = if replaced res then rt.size + 1 else rt.size })

-- The four methods that mark a node, by what they mark and when the bucket is refreshed.
unfoldable pub mark_node :
    ℕ
    → Option ℕ
    → (RoutingTableNode → RoutingTableNode)
    → RoutingTable
    → Option (Bool × RoutingTable)
mark_node id refresh f rt = get_mut id refresh f rt.buckets >>= λ (found, buckets).
    some (found, record rt { buckets = buckets })

abbrev pub table_mark_outgoing_request : ℕ → ℕ → RoutingTable → Option (Bool × RoutingTable)
table_mark_outgoing_request id now rt = mark_node id none (mark_outgoing_request now) rt

abbrev pub table_mark_response : ℕ → ℕ → RoutingTable → Option (Bool × RoutingTable)
table_mark_response id now rt = mark_node id (some now) (mark_response now) rt

abbrev pub table_mark_error : ℕ → RoutingTable → Option (Bool × RoutingTable)
table_mark_error id rt = mark_node id none mark_error rt

abbrev pub table_mark_last_query : ℕ → ℕ → RoutingTable → Option (Bool × RoutingTable)
table_mark_last_query id now rt = mark_node id none (mark_last_query now) rt
