-- ===== src/RoutingTable/Tree/Leaf.antt =====
-- A leaf whose nodes change.
use rust_torrent.Prelude.{ℕ, ◌+◌, ◌^◌, ◌≤◌, ◌≡◌, refl, subst, List, length, set}
use rust_torrent.RoutingTable.{
  RoutingTableNode, LeafBucket, BucketTreeNodeData, leaf, BucketTreeNode,
}
use rust_torrent.RoutingTable.Tree.Valid.{
  Within, Distinct, total, total_data, total_tree, IsValidData, IsValidArena,
}
use rust_torrent.RoutingTable.Tree.Arena.{total_tree-set, set-IsValidArena}
use rust_torrent.RoutingTable.Tree.Descend.{IsLeafFor}

module _ {arena : List BucketTreeNode} (v : IsValidArena arena) {id idx : ℕ}
    (l : IsLeafFor arena id idx) where
  pub leaf_inside :
      Within l.node.start (l.node.start + 2 ^ l.node.bits) l.bucket.nodes
      × Distinct l.bucket.nodes
      × (length l.bucket.nodes ≤ 8)
  leaf_inside =
      subst (IsValidData arena l.node.bits l.node.start) l.is_leaf
        (v.each idx l.node l.there).inside

  abbrev pub leaf_then : LeafBucket → BucketTreeNode
  leaf_then b = record l.node { data_of = leaf b }

  pub leaf_then-IsValidArena :
      (b : LeafBucket)
      → Within l.node.start (l.node.start + 2 ^ l.node.bits) b.nodes
      → Distinct b.nodes
      → length b.nodes ≤ 8
      → IsValidArena (set arena idx (leaf_then b))
  leaf_then-IsValidArena b w d n =
      let old = v.each idx l.node l.there in
      set-IsValidArena arena idx l.node (leaf_then b) v l.there refl refl (record {
        few = old.few;
        quotient = old.quotient;
        aligned = old.aligned;
        end_eq = old.end_eq;
        inside = (w, d, n);
      })

  pub total-leaf_then :
      (f : RoutingTableNode → ℕ) (b : LeafBucket)
      → total_tree f (set arena idx (leaf_then b)) + total f l.bucket.nodes
        ≡ total_tree f arena + total f b.nodes
  total-leaf_then f b =
      subst
        (λ (d : BucketTreeNodeData).
          total_tree f (set arena idx (leaf_then b)) + total_data f d
          ≡ total_tree f arena + total f b.nodes)
        l.is_leaf (total_tree-set f arena idx (leaf_then b) l.there)
