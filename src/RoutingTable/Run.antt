-- ===== src/RoutingTable/Run.antt =====
-- Calls of a routing table, one by one and in sequence.
use rust_torrent.Prelude.{
  ℕ, zero, suc, ◌+◌, ◌^◌, ◌≤◌, ◌<◌, ◌≡◌, refl, subst, ap, Bool, true, false, if◌then◌else◌, Option,
  none, some, List, [], ◌∷◌, get_elem?, ◌>>=◌, arith,
}
use mathlib.Core.Option.{some-injective}
use rust_torrent.RoutingTable.{
  RoutingTableNode, mark_outgoing_request, mark_response, mark_error, mark_last_query,
  BucketTreeNode, BucketTree, InsertResult, was_existing, replaced_bad, added, ignored,
  RoutingTable,
}
use rust_torrent.RoutingTable.Tree.{new_tree, new_node}
use rust_torrent.RoutingTable.Tree.Valid.{total_tree, IsValidNode, IsValid, Changes}
use rust_torrent.RoutingTable.Tree.Insert.{add_to_tree_lem}
use rust_torrent.RoutingTable.Tree.Mark.{Marks, get_mut-Marks}
use rust_torrent.RoutingTable.Table.{
  new_table, replaced, add_node, mark_node, table_mark_outgoing_request, table_mark_response,
  table_mark_error, table_mark_last_query,
}

new_tree-IsValid : (now max_size : ℕ) → IsValid (new_tree now max_size)
unfolding new_tree
new_tree-IsValid now max_size = record {
  valid_arena = record {
    root = record { child = _; there = refl; bits_eq = refl; start_eq = refl };
    each = λ i n e. only i n e;
  };
  counted = refl;
  bounded = omega arith;
}
  where
    only :
        (i : ℕ) (n : BucketTreeNode)
        → get_elem? (new_tree now max_size).arena i ≡ some n
        → IsValidNode (new_tree now max_size).arena n
    only zero n e =
        subst (IsValidNode (new_tree now max_size).arena) (some-injective _ _ e) (record {
          few = omega arith;
          quotient = 0;
          aligned = refl;
          end_eq = refl;
          inside = (tt, tt, omega arith);
        })
    only (suc i) n e = cc

-- By how much `len` grows when the number of the nodes does not.
abbrev pub surplus : InsertResult → ℕ
surplus was_existing = 0
surplus ignored = 0
surplus added = 0
surplus (replaced_bad n) = 1

-- On a routing table with a well-formed tree and for an id below 2 ^ 160, `RoutingTable::add_node`
-- returns and leaves a well-formed tree with the same maximum, and `len` grows by as much as the
-- number of the nodes, but by one more if a bad node was replaced.
pub add_node_lem :
    (now id addr : ℕ) (rt : RoutingTable)
    → IsValid rt.buckets
    → id < 2 ^ 160
    → (result : InsertResult) × (rt' : RoutingTable) × (add_node now id addr rt
        ≡ some (result, rt'))
      × IsValid rt'.buckets
      × (rt'.buckets.max_size ≡ rt.buckets.max_size)
      × (rt'.size + rt.buckets.size ≡ rt.size + rt'.buckets.size + surplus result)
unfolding add_node
add_node_lem now id addr rt v h =
    let (result, buckets, eq, valid, same, changes) =
      add_to_tree_lem now rt.id id addr rt.buckets v h in
    (
      result,
      record rt { buckets = buckets; size = if replaced result then rt.size + 1 else rt.size },
      rw eq refl,
      valid,
      same,
      counts result (omega (arith, v.counted)) (omega (arith, valid.counted)) (changes (λ n. 1)),
    )
  where
    counts :
        (result : InsertResult) {a b n m : ℕ}
        → a ≡ n
        → b ≡ m
        → Changes (λ n. 1) (new_node id addr) result n m
        → (if replaced result then rt.size + 1 else rt.size) + a ≡ rt.size + b + surplus result
    counts was_existing e e' c = omega arith
    counts ignored e e' c = omega arith
    counts added e e' c = omega arith
    counts (replaced_bad n) e e' c = omega arith

pub data Call : Type 0 where
  add : ℕ → ℕ → Call
  sent_request got_response got_error got_query : ℕ → Call

abbrev pub id_of : Call → ℕ
id_of (add id addr) = id
id_of (sent_request id) = id
id_of (got_response id) = id
id_of (got_error id) = id
id_of (got_query id) = id

abbrev second : {A : Type 0} → Option (A × RoutingTable) → Option RoutingTable
second o = o >>= λ (a, rt). some rt

unfoldable pub answer : ℕ → Call → RoutingTable → Option RoutingTable
answer now (add id addr) rt = second (add_node now id addr rt)
answer now (sent_request id) rt = second (table_mark_outgoing_request id now rt)
answer now (got_response id) rt = second (table_mark_response id now rt)
answer now (got_error id) rt = second (table_mark_error id rt)
answer now (got_query id) rt = second (table_mark_last_query id now rt)

unfoldable pub answer_calls : List (ℕ × Call) → RoutingTable → Option RoutingTable
answer_calls [] rt = some rt
answer_calls ((now, c) ∷ cs) rt = answer now c rt >>= λ rt'. answer_calls cs rt'

abbrev pub HaveIds : List (ℕ × Call) → Type 0
HaveIds [] = Unit
HaveIds ((now, c) ∷ cs) = (id_of c < 2 ^ 160) × HaveIds cs

-- The tree is well formed, it has not more nodes than it may have, nor than `len` says.
pub record IsSound (max_size : ℕ) (rt : RoutingTable) : Type 0 where
  pub valid : IsValid rt.buckets
  pub max_eq : rt.buckets.max_size ≡ max_size
  pub len_enough : rt.buckets.size ≤ rt.size

mark_node-IsSound :
    (id : ℕ) (refresh : Option ℕ) (g : RoutingTableNode → RoutingTableNode) (rt : RoutingTable)
    {m : ℕ}
    → ((n : RoutingTableNode) → (g n).id ≡ n.id)
    → id < 2 ^ 160
    → IsSound m rt
    → (rt' : RoutingTable) × (second (mark_node id refresh g rt) ≡ some rt') × IsSound m rt'
unfolding mark_node
mark_node-IsSound id refresh g rt keeps h s =
    let (found, buckets, eq, valid, same, marks) =
      get_mut-Marks id g keeps rt.buckets refresh s.valid h in
    (
      record rt { buckets = buckets },
      rw eq refl,
      record {
        valid = valid;
        max_eq = omega (arith, same, s.max_eq);
        len_enough = by_found found buckets marks valid.counted;
      },
    )
  where
    by_found :
        (found : Bool) (buckets : BucketTree)
        → Marks g id found rt.buckets buckets
        → buckets.size ≡ total_tree (λ n. 1) buckets.arena
        → buckets.size ≤ rt.size
    by_found true b (n, e, sums) c = omega (arith, c, sums (λ n. 1), s.valid.counted, s.len_enough)
    by_found false b e c = omega (arith, ap (λ (b : BucketTree). b.size) e, s.len_enough)

add_node-IsSound :
    (now id addr : ℕ) (rt : RoutingTable) {m : ℕ}
    → id < 2 ^ 160
    → IsSound m rt
    → (rt' : RoutingTable) × (second (add_node now id addr rt) ≡ some rt') × IsSound m rt'
add_node-IsSound now id addr rt h s =
    let (result, rt', eq, valid, same, count) = add_node_lem now id addr rt s.valid h in
    (
      rt',
      rw eq refl,
      record {
        valid = valid;
        max_eq = omega (arith, same, s.max_eq);
        len_enough = omega (arith, count, s.len_enough);
      },
    )

answer-IsSound :
    (now : ℕ) (c : Call) (rt : RoutingTable) {m : ℕ}
    → id_of c < 2 ^ 160
    → IsSound m rt
    → (rt' : RoutingTable) × (answer now c rt ≡ some rt') × IsSound m rt'
unfolding answer mark_outgoing_request mark_response mark_error mark_last_query
answer-IsSound now (add id addr) rt h s = add_node-IsSound now id addr rt h s
answer-IsSound now (sent_request id) rt h s =
    mark_node-IsSound id none (mark_outgoing_request now) rt (λ n. refl) h s
answer-IsSound now (got_response id) rt h s =
    mark_node-IsSound id (some now) (mark_response now) rt (λ n. refl) h s
answer-IsSound now (got_error id) rt h s = mark_node-IsSound id none mark_error rt (λ n. refl) h s
answer-IsSound now (got_query id) rt h s =
    mark_node-IsSound id none (mark_last_query now) rt (λ n. refl) h s

answer_calls-from :
    (cs : List (ℕ × Call)) (rt : RoutingTable) {m : ℕ}
    → HaveIds cs
    → IsSound m rt
    → (rt' : RoutingTable) × (answer_calls cs rt ≡ some rt') × IsSound m rt'
unfolding answer_calls
answer_calls-from [] rt h s = (rt, refl, s)
answer_calls-from ((now, c) ∷ cs) rt h s =
    let (rt₁, eq₁, s₁) = answer-IsSound now c rt h.0 s in
    let (rt₂, eq₂, s₂) = answer_calls-from cs rt₁ h.1 s₁ in (rt₂, rw eq₁ eq₂, s₂)

abbrev pub max_of : Option ℕ → ℕ
max_of none = 512
max_of (some m) = m

-- On a new routing table, any sequence of calls of `add_node`, `mark_outgoing_request`,
-- `mark_response`, `mark_error` and `mark_last_query` with ids below 2 ^ 160 returns: no index is
-- out of bounds and no assertion fails. Afterwards the tree is well formed: each leaf has at most 8
-- nodes, with different ids from its range, the two children of a node halve its range, and the
-- size of the tree is the number of its nodes and not above the maximum. `len` is not below it.
pub answer_calls-IsSound :
    (now id : ℕ) (max_size : Option ℕ) (cs : List (ℕ × Call))
    → HaveIds cs
    → (rt : RoutingTable) × (answer_calls cs (new_table now id max_size) ≡ some rt)
      × IsSound (max_of max_size) rt
unfolding new_table new_tree
answer_calls-IsSound now id none cs h =
    answer_calls-from cs (new_table now id none) h
      (record { valid = new_tree-IsValid now 512; max_eq = refl; len_enough = omega arith })
answer_calls-IsSound now id (some m) cs h =
    answer_calls-from cs (new_table now id (some m)) h
      (record { valid = new_tree-IsValid now m; max_eq = refl; len_enough = omega arith })
