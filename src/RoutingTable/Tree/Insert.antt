-- ===== src/RoutingTable/Tree/Insert.antt =====
-- Adding a node to the tree.
use rust_torrent.Prelude.{
  ℕ, zero, suc, ◌+◌, ◌^◌, ◌≤◌, ◌<◌, ◌≡◌, refl, sym, ◌∙◌, ap, subst, ◌⊎◌, inl, inr, Bool-cases, ◌||◌,
  Option-cases, some, List, [], ◌∷◌, ◌++◌, length, set, ltb, ◌==◌, if◌then◌else◌, arith,
}
use rust_torrent.RoutingTable.{
  RoutingTableNode, LeafBucket, BucketTreeNode, BucketTree, InsertResult, was_existing,
  replaced_bad, added, ignored,
}
use rust_torrent.Prelude.Sort.{sort_by}
use rust_torrent.RoutingTable.Tree.{
  finished, split, id_le, any_id, new_node, replace_bad, put_nodes, visit_leaf, insert_into_leaf,
  add_to_tree,
}
use rust_torrent.RoutingTable.Tree.Valid.{
  Within, Lacks, Distinct, total, total_tree, IsValid, Changes,
}
use rust_torrent.RoutingTable.Tree.Nodes.{
  any_id-Lacks, sort_by-Within, sort_by-Distinct, append-Within, append-Distinct,
  replace_bad-Replaces,
}
use rust_torrent.RoutingTable.Tree.Sums.{total-sort_by, total-append, length-total}
use rust_torrent.RoutingTable.Tree.Descend.{IsLeafFor, get_leaf-IsLeafFor}
use rust_torrent.RoutingTable.Tree.Leaf.{
  leaf_inside, leaf_then, leaf_then-IsValidArena, total-leaf_then,
}
use rust_torrent.RoutingTable.Tree.Split.{split_leaf-IsSplit}

pub record IsInserted (new : RoutingTableNode) (t : BucketTree) (result : InsertResult)
    (t' : BucketTree) : Type 0 where
  pub valid : IsValid t'
  pub same_max : t'.max_size ≡ t.max_size
  pub changes :
      (f : RoutingTableNode → ℕ)
      → Changes f new result (total_tree f t.arena) (total_tree f t'.arena)

module _ (now self_id id addr : ℕ) where
  abbrev Settles : ℕ → BucketTree → BucketTreeNode → List RoutingTableNode → Type 0
  Settles idx t n nodes =
      ((result : InsertResult) × (t' : BucketTree) × (visit_leaf now self_id id addr idx n nodes t
          ≡ finished result t')
        × IsInserted (new_node id addr) t result t')
      ⊎ ((visit_leaf now self_id id addr idx n nodes t ≡ split) × (3 ≤ length nodes))

  module _ {t : BucketTree} (v : IsValid t) {idx : ℕ} (l : IsLeafFor t.arena id idx) where
    abbrev new : RoutingTableNode
    new = new_node id addr

    -- The leaf with other nodes, of which there are not more than before or than 8.
    put_nodes-IsInserted :
        (result : InsertResult) (ns : List RoutingTableNode) (size : ℕ)
        → Within l.node.start (l.node.start + 2 ^ l.node.bits) ns
        → Distinct ns
        → length ns ≤ 8
        → size + total (λ n. 1) l.bucket.nodes ≡ t.size + total (λ n. 1) ns
        → size ≤ t.max_size
        → ((f : RoutingTableNode → ℕ)
            → (a b : ℕ) → b + total f l.bucket.nodes ≡ a + total f ns
            → Changes f new result a b)
        → IsInserted new t result (record (put_nodes now ns idx l.node t) { size = size })
    put_nodes-IsInserted result ns size w d few count bound change =
        let b : LeafBucket = record { nodes = sort_by id_le ns; last_refreshed = now } in
        let same : (f : RoutingTableNode → ℕ) → total f (sort_by id_le ns) ≡ total f ns =
          λ f. total-sort_by f id_le ns in
        let sum : (f : RoutingTableNode → ℕ)
            → total_tree f (set t.arena idx (leaf_then v.valid_arena l b)) + total f l.bucket.nodes
              ≡ total_tree f t.arena + total f ns =
          λ f.
            total-leaf_then v.valid_arena l f b
            ∙ ap (λ (x : ℕ). total_tree f t.arena + x) (same f) in
        record {
          valid = record {
            valid_arena =
                leaf_then-IsValidArena v.valid_arena l b
                  (sort_by-Within l.node.start (l.node.start + 2 ^ l.node.bits) ns w)
                  (sort_by-Distinct ns d)
                  (omega
                    (arith, few, length-total ns, length-total (sort_by id_le ns), same (λ n. 1)));
            counted = omega (arith, count, v.counted, sum (λ n. 1));
            bounded = bound;
          };
          same_max = refl;
          changes = λ f. change f _ _ (sum f);
        }

    -- A bad node of the leaf is replaced.
    replaces :
        {ns : List RoutingTableNode} {old : RoutingTableNode}
        → replace_bad now new l.bucket.nodes ≡ some (ns, old)
        → Lacks id l.bucket.nodes
        → IsInserted new t (replaced_bad old) (put_nodes now ns idx l.node t)
    replaces {ns} {old} found lacks =
        let (w, d, few) = leaf_inside v.valid_arena l in
        let r = replace_bad-Replaces now new l.bucket.nodes found in
        let ones : total (λ n. 1) ns ≡ total (λ n. 1) l.bucket.nodes =
          omega (arith, r.sums (λ n. 1)) in
        put_nodes-IsInserted (replaced_bad old) ns t.size
          (r.within l.node.start (l.node.start + 2 ^ l.node.bits) w l.lo l.hi) (r.distinct d lacks)
          (omega (arith, few, ones, length-total l.bucket.nodes, length-total ns))
          (omega (arith, ones)) v.bounded (λ f a b e. omega (arith, e, r.sums f))

    -- The leaf has room for one more.
    adds :
        length l.bucket.nodes < 8
        → t.size + 1 ≤ t.max_size
        → Lacks id l.bucket.nodes
        → IsInserted new t added
            (record (put_nodes now (l.bucket.nodes ++ (new ∷ [])) idx l.node t) {
              size = t.size + 1;
            })
    adds small room lacks =
        let (w, d, few) = leaf_inside v.valid_arena l in
        let ns = l.bucket.nodes in
        let ms = ns ++ (new ∷ []) in
        let ones = total-append (λ n. 1) ns (new ∷ []) in
        put_nodes-IsInserted added ms (t.size + 1)
          (append-Within l.node.start (l.node.start + 2 ^ l.node.bits) ns new w l.lo l.hi)
          (append-Distinct ns new d lacks)
          (omega (arith, small, ones, length-total ns, length-total ms)) (omega (arith, ones)) room
          (λ f a b e. omega (arith, e, total-append f ns (new ∷ [])))

    unchanged :
        (result : InsertResult)
        → ((f : RoutingTableNode → ℕ) (a : ℕ) → Changes f new result a a)
        → IsInserted new t result t
    unchanged result same = record { valid = v; same_max = refl; changes = λ f. same f _ }

    visit_leaf-Settles : Settles idx t l.node l.bucket.nodes
    unfolding visit_leaf
    visit_leaf-Settles =
        let ns = l.bucket.nodes in
        elim (Bool-cases (any_id id ns)) [
          | inl known ↦ inl (was_existing, t, rw known refl, unchanged was_existing (λ f a. refl))
          | inr fresh ↦
              let lacks = any_id-Lacks id ns fresh in
              elim (Option-cases (replace_bad now new ns)) [
                | inr ((ns', old), found) ↦ inl (
                  replaced_bad old,
                  put_nodes now ns' idx l.node t,
                  rw (fresh, found) refl,
                  replaces found lacks,
                )
                | inl no_bad ↦ elim (Bool-cases (t.size == t.max_size)) [
                  | inl full ↦
                      inl
                        (ignored, t, rw (fresh, no_bad, full) refl, unchanged ignored (λ f a. refl))
                  | inr room ↦ elim (Bool-cases (ltb (length ns) 8)) [
                    | inl small ↦ inl (
                      added,
                      record (put_nodes now (ns ++ (new ∷ [])) idx l.node t) { size = t.size + 1 },
                      rw (fresh, no_bad, room, small) refl,
                      adds (ground (arith, small)) (ground (arith, room, v.bounded)) lacks,
                    )
                    | inr big ↦
                        elim (Bool-cases
                          (ltb self_id l.node.start || ltb l.node.end_inclusive self_id)) [
                            | inl outside ↦ inl (
                              ignored,
                              t,
                              rw (fresh, no_bad, room, big, outside) refl,
                              unchanged ignored (λ f a. refl),
                            )
                            | inr ours ↦
                                inr (rw (fresh, no_bad, room, big, ours) refl, ground (arith, big))
                          ]
                  ]
                ]
              ]
        ]

  IsInserted-same :
      (t : BucketTree) (arena : List BucketTreeNode) {result : InsertResult} {t' : BucketTree}
      → ((f : RoutingTableNode → ℕ) → total_tree f arena ≡ total_tree f t.arena)
      → IsInserted (new_node id addr) (record t { arena = arena }) result t'
      → IsInserted (new_node id addr) t result t'
  IsInserted-same t arena {result} {t'} same i = record {
    valid = i.valid;
    same_max = i.same_max;
    changes = λ f.
        subst (λ (a : ℕ). Changes f (new_node id addr) result a (total_tree f t'.arena)) (same f)
          (i.changes f);
  }

  insert_into_leaf-IsInserted :
      (fuel idx : ℕ) (t : BucketTree)
      → IsValid t
      → (l : IsLeafFor t.arena id idx) → l.node.bits < fuel
      → (result : InsertResult) × (t' : BucketTree) × (insert_into_leaf fuel idx now self_id id addr
            t
          ≡ some (result, t'))
        × IsInserted (new_node id addr) t result t'
  unfolding insert_into_leaf
  insert_into_leaf-IsInserted zero idx t v l enough = absurd (omega arith)
  insert_into_leaf-IsInserted (suc fuel) idx t v l enough = elim (visit_leaf-Settles v l) [
    | inl (result, t', eq, inserted) ↦ (result, t', rw (l.there, l.is_leaf, eq) refl, inserted)
    | inr (eq, many) ↦
        let (arena, rs, left, right, divided, s) = split_leaf-IsSplit v.valid_arena l now many in
        let (result, t', rest, inserted) =
          insert_into_leaf-IsInserted fuel (if ltb id rs then left else right)
            (record t { arena = arena })
            (record {
              valid_arena = s.valid;
              counted = v.counted ∙ sym (s.sums (λ n. 1));
              bounded = v.bounded;
            })
            s.next (omega (arith, enough, s.fewer)) in
        (
          result,
          t',
          rw (l.there, l.is_leaf, eq, divided) rest,
          IsInserted-same t arena s.sums inserted,
        )
  ]

  -- On a well-formed tree and for an id below 2 ^ 160, `add_node` returns, leaves a well-formed
  -- tree with the same maximum, and does to the nodes what its result says: with `WasExisting` and
  -- `Ignored` they are the same ones, with `Added` the new node comes to them, and with
  -- `ReplacedBad` the new node takes the place of the one in the result. This is said of the sum of
  -- any function over the nodes.
  pub add_to_tree_lem :
      (t : BucketTree)
      → IsValid t
      → id < 2 ^ 160
      → (result : InsertResult) × (t' : BucketTree) × (add_to_tree now self_id id addr t
          ≡ some (result, t'))
        × IsValid t'
        × (t'.max_size ≡ t.max_size)
        × ((f : RoutingTableNode → ℕ)
            → Changes f (new_node id addr) result (total_tree f t.arena) (total_tree f t'.arena))
  unfolding add_to_tree
  add_to_tree_lem t v h =
      let (idx, down, l) = get_leaf-IsLeafFor t.arena v.valid_arena id h in
      let few = (v.valid_arena.each idx l.node l.there).few in
      let (result, t', eq, inserted) =
        insert_into_leaf-IsInserted 161 idx t v l (omega (arith, few)) in
      (result, t', rw down eq, inserted.valid, inserted.same_max, inserted.changes)
