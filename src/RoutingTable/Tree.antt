-- ===== src/RoutingTable/Tree.antt =====
-- `BucketTree` of crates/librtbit-dht/src/routing_table.rs. The loops that go down the tree are on fuel:
-- each step leads to a node of fewer bits, and there are 160 at most.
pub mod Valid
pub mod Nodes
pub mod Sums
pub mod Halves
pub mod Arena
pub mod Descend
pub mod Leaf
pub mod Split
pub mod Insert
pub mod Mark
use rust_torrent.Prelude.{
  ℕ, zero, suc, ◌+◌, ◌-◌, ◌^◌, Bool, true, false, ◌&&◌, ◌||◌, Option, none, some, List, [], ◌∷◌,
  ◌++◌, length, get_elem?, set, ltb, leb, ◌==◌, if◌then◌else◌, ◌>>=◌,
}
use rust_torrent.Prelude.Sort.{sort_by}
use rust_torrent.RoutingTable.{
  RoutingTableNode, LeafBucket, leaf, left_right, BucketTreeNode, BucketTree, InsertResult,
  was_existing, replaced_bad, added, ignored, compute_split_start_end, status, is_bad,
}

abbrev pub id_le : RoutingTableNode → RoutingTableNode → Bool
id_le a b = leb a.id b.id

abbrev pub any_id : ℕ → List RoutingTableNode → Bool
any_id id [] = false
any_id id (n ∷ ns) = n.id == id || any_id id ns

-- `BucketTree::new`
unfoldable pub new_tree : ℕ → ℕ → BucketTree
new_tree now max_size = record {
  arena =
      record {
        bits = 160;
        start = 0;
        end_inclusive = 2 ^ 160 - 1;
        data_of = leaf (record { nodes = []; last_refreshed = now });
      }
      ∷ [];
  size = 0;
  max_size = max_size;
}

abbrev pub in_range : ℕ → BucketTreeNode → Bool
in_range id n = leb n.start id && leb id n.end_inclusive

unfoldable pub get_leaf_from : ℕ → ℕ → ℕ → List BucketTreeNode → Option ℕ
get_leaf_from zero idx id arena = none
get_leaf_from (suc fuel) idx id arena = get_elem? arena idx >>= λ node. elim node.data_of [
  | leaf bucket ↦ some idx
  | left_right left_idx right_idx ↦ get_elem? arena left_idx >>= λ left.
      get_leaf_from fuel (if in_range id left then left_idx else right_idx) id arena
]

unfoldable pub get_leaf : ℕ → List BucketTreeNode → Option ℕ
get_leaf id arena = get_leaf_from 161 0 id arena

-- The swap of the first bad node with a new one: the nodes then, and the bad one.
unfoldable pub replace_bad :
    ℕ → RoutingTableNode → List RoutingTableNode → Option (List RoutingTableNode × RoutingTableNode)
replace_bad now new_node [] = none
replace_bad now new_node (n ∷ ns) =
    let others = replace_bad now new_node ns in
    if is_bad (status now n)
    then some (new_node ∷ ns, n)
    else others >>= λ (ns', b). some (n ∷ ns', b)

-- The `drain` of a leaf into two.
unfoldable pub below : ℕ → List RoutingTableNode → List RoutingTableNode
below rs [] = []
below rs (n ∷ ns) = if ltb n.id rs then n ∷ below rs ns else below rs ns

unfoldable pub not_below : ℕ → List RoutingTableNode → List RoutingTableNode
not_below rs [] = []
not_below rs (n ∷ ns) = if ltb n.id rs then not_below rs ns else n ∷ not_below rs ns

abbrev pub new_node : ℕ → ℕ → RoutingTableNode
new_node id addr = record {
  id = id;
  addr = addr;
  last_request = none;
  last_response = none;
  last_query = none;
  errors_in_a_row = 0;
}

-- What a round of the loop of `insert_into_leaf` comes to.
pub data Round : Type 0 where
  finished : InsertResult → BucketTree → Round
  split : Round

-- The leaf at `idx` with other nodes, sorted.
abbrev pub put_nodes : ℕ → List RoutingTableNode → ℕ → BucketTreeNode → BucketTree → BucketTree
put_nodes now nodes idx n t = record t {
  arena =
      set t.arena idx (record n {
        data_of = leaf (record { nodes = sort_by id_le nodes; last_refreshed = now });
      });
}

unfoldable pub visit_leaf :
    ℕ → ℕ → ℕ → ℕ → ℕ → BucketTreeNode → List RoutingTableNode → BucketTree → Round
visit_leaf now self_id id addr idx n nodes t =
    if any_id id nodes
    then finished was_existing t
    else elim (replace_bad now (new_node id addr) nodes) [
      | some (nodes', b) ↦ finished (replaced_bad b) (put_nodes now nodes' idx n t)
      | none ↦
          if t.size == t.max_size
          then finished ignored t
          else if ltb (length nodes) 8
          then finished added (record (put_nodes now (nodes ++ (new_node id addr ∷ [])) idx n t) {
            size = t.size + 1;
          })
          else if ltb self_id n.start || ltb n.end_inclusive self_id
          then finished ignored t
          else split
    ]

-- The split of a leaf: the arena then, where the right leaf starts, and the indices of both.
unfoldable pub split_leaf :
    ℕ
    → ℕ
    → BucketTreeNode
    → List RoutingTableNode
    → List BucketTreeNode
    → Option (List BucketTreeNode × ℕ × ℕ × ℕ)
split_leaf now idx n nodes arena =
    compute_split_start_end n.start n.end_inclusive n.bits >>= λ ((ls, le), (rs, re)).
    let left : BucketTreeNode = record {
      bits = n.bits - 1;
      start = ls;
      end_inclusive = le;
      data_of = leaf (record { nodes = below rs nodes; last_refreshed = now });
    } in
    let right : BucketTreeNode = record {
      bits = n.bits - 1;
      start = rs;
      end_inclusive = re;
      data_of = leaf (record { nodes = not_below rs nodes; last_refreshed = now });
    } in
    let left_idx = length arena in
    let right_idx = length arena + 1 in
    some (
      set (arena ++ (left ∷ right ∷ [])) idx (record n { data_of = left_right left_idx right_idx }),
      rs,
      left_idx,
      right_idx,
    )

unfoldable pub insert_into_leaf :
    ℕ → ℕ → ℕ → ℕ → ℕ → ℕ → BucketTree → Option (InsertResult × BucketTree)
insert_into_leaf zero idx now self_id id addr t = none
insert_into_leaf (suc fuel) idx now self_id id addr t = get_elem? t.arena idx >>= λ n.
    elim n.data_of [
      | left_right l r ↦ none
      | leaf bucket ↦ elim (visit_leaf now self_id id addr idx n bucket.nodes t) [
        | finished result t' ↦ some (result, t')
        | split ↦ split_leaf now idx n bucket.nodes t.arena >>= λ (arena, rs, left_idx, right_idx).
            insert_into_leaf fuel (if ltb id rs then left_idx else right_idx) now self_id id addr
              (record t { arena = arena })
      ]
    ]

-- `BucketTree::add_node`
unfoldable pub add_to_tree : ℕ → ℕ → ℕ → ℕ → BucketTree → Option (InsertResult × BucketTree)
add_to_tree now self_id id addr t =
    get_leaf id t.arena >>= λ idx. insert_into_leaf 161 idx now self_id id addr t

abbrev pub update_first :
    ℕ → (RoutingTableNode → RoutingTableNode) → List RoutingTableNode → List RoutingTableNode
update_first id f [] = []
update_first id f (n ∷ ns) = if n.id == id then f n ∷ ns else n ∷ update_first id f ns

-- `get_mut` and a change of the node that it finds: whether it finds one, and the tree then.
unfoldable pub get_mut :
    ℕ → Option ℕ → (RoutingTableNode → RoutingTableNode) → BucketTree → Option (Bool × BucketTree)
get_mut id refresh f t = get_leaf id t.arena >>= λ idx. get_elem? t.arena idx >>= λ n.
    elim n.data_of [
      | left_right l r ↦ none
      | leaf bucket ↦
          if any_id id bucket.nodes
          then some (
            true,
            record t {
              arena = set t.arena idx (record n {
                data_of = leaf (record {
                  nodes = update_first id f bucket.nodes;
                  last_refreshed = elim refresh [ none ↦ bucket.last_refreshed | some now ↦ now ];
                });
              });
            },
          )
          else some (false, t)
    ]
