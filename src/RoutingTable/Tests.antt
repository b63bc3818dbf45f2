-- ===== src/RoutingTable/Tests.antt =====
-- A routing table with one node, which has failed twice.
use rust_torrent.Prelude.{
  ℕ, zero, suc, ◌+◌, ◌-◌, ◌^◌, ◌≡◌, refl, subst, none, some, List, [], ◌∷◌, get_elem?, arith,
}
use mathlib.Core.Option.{some-injective}
use rust_torrent.RoutingTable.{
  RoutingTableNode, leaf, BucketTreeNode, BucketTree, InsertResult, replaced_bad, RoutingTable,
  set_bit, compute_split_start_end, status, mark_response,
}
use rust_torrent.Prelude.Sort.{sort_by, insert_by}
use rust_torrent.RoutingTable.Tree.{
  new_node, get_leaf, get_leaf_from, replace_bad, visit_leaf, insert_into_leaf, add_to_tree,
}
use rust_torrent.RoutingTable.Tree.Valid.{total_tree, IsValidNode, IsValid, Changes}
use rust_torrent.RoutingTable.Tree.Insert.{add_to_tree_lem}
use rust_torrent.RoutingTable.Table.{new_table, add_node}
use rust_torrent.RoutingTable.Run.{
  surplus, add_node_lem, Call, add, sent_request, got_response, got_error, answer_calls, IsSound,
  answer_calls-IsSound,
}

abbrev failed : RoutingTableNode
failed = record {
  id = 5;
  addr = 50;
  last_request = some 1;
  last_response = none;
  last_query = none;
  errors_in_a_row = 2;
}

abbrev failed_tree : BucketTree
failed_tree = record {
  arena =
      record {
        bits = 160;
        start = 0;
        end_inclusive = 2 ^ 160 - 1;
        data_of = leaf (record { nodes = failed ∷ []; last_refreshed = 0 });
      }
      ∷ [];
  size = 1;
  max_size = 3;
}

abbrev failed_table : RoutingTable
failed_table = record { id = 7; size = 1; buckets = failed_tree }

failed_tree-IsValid : IsValid failed_tree
failed_tree-IsValid = record {
  valid_arena = record {
    root = record { child = _; there = refl; bits_eq = refl; start_eq = refl };
    each = λ i n e. only i n e;
  };
  counted = refl;
  bounded = omega arith;
}
  where
    only :
        (i : ℕ) (n : BucketTreeNode)
        → get_elem? failed_tree.arena i ≡ some n
        → IsValidNode failed_tree.arena n
    only zero n e = subst (IsValidNode failed_tree.arena) (some-injective _ _ e) (record {
      few = omega arith;
      quotient = 0;
      aligned = refl;
      end_eq = refl;
      inside = ((omega arith, omega arith, tt), (tt, tt), omega arith);
    })
    only (suc i) n e = cc

add_to_tree_example :
    (result : InsertResult) × (t' : BucketTree) × (add_to_tree 9 7 6 60 failed_tree
      ≡ some (result, t'))
    × IsValid t'
    × (t'.max_size ≡ 3)
    × ((f : RoutingTableNode → ℕ)
        → Changes f (new_node 6 60) result (total_tree f failed_tree.arena) (total_tree f t'.arena))
add_to_tree_example = add_to_tree_lem 9 7 6 60 failed_tree failed_tree-IsValid (omega arith)

mark_response-id : (n : RoutingTableNode) → (mark_response 9 n).id ≡ n.id
unfolding mark_response
mark_response-id n = refl

add_node_example :
    (result : InsertResult) × (rt' : RoutingTable) × (add_node 9 6 60 failed_table
      ≡ some (result, rt'))
    × IsValid rt'.buckets
    × (rt'.buckets.max_size ≡ 3)
    × (rt'.size + 1 ≡ 1 + rt'.buckets.size + surplus result)
add_node_example = add_node_lem 9 6 60 failed_table failed_tree-IsValid (omega arith)

-- The bad node is replaced, and the table counts two nodes then.
replaces_failed :
    (rt' : RoutingTable) × (add_node 9 6 60 failed_table ≡ some (replaced_bad failed, rt'))
    × (rt'.size ≡ 2)
    × (rt'.buckets.size ≡ 1)
unfolding add_node add_to_tree get_leaf get_leaf_from insert_into_leaf visit_leaf replace_bad status
    sort_by insert_by
replaces_failed = (_, refl, refl, refl)

splits_all :
    compute_split_start_end 0 (2 ^ 160 - 1) 160 ≡ some ((0, 2 ^ 159 - 1), (2 ^ 159, 2 ^ 160 - 1))
unfolding compute_split_start_end set_bit
splits_all = refl

abbrev some_calls : List (ℕ × Call)
some_calls =
    (1, add 5 50)
    ∷ (2, sent_request 5)
    ∷ (3, got_error 5)
    ∷ (4, got_error 5)
    ∷ (5, add 6 60)
    ∷ (6, got_response 6)
    ∷ []

answer_calls-IsSound_example :
    (rt : RoutingTable) × (answer_calls some_calls (new_table 0 7 none) ≡ some rt) × IsSound 512 rt
answer_calls-IsSound_example =
    answer_calls-IsSound 0 7 none some_calls
      (omega arith, (omega arith, (omega arith, (omega arith, (omega arith, (omega arith, tt))))))
