-- ===== src/RoutingTable/Tree/Valid.antt =====
-- When a bucket tree is well formed, and what its nodes add up to.
use rust_torrent.Prelude.{
  ℕ, suc, ◌+◌, ◌*◌, ◌^◌, ◌≤◌, ◌<◌, ◌≡◌, ◌≢◌, some, List, [], ◌∷◌, length, get_elem?,
}
use rust_torrent.RoutingTable.{
  RoutingTableNode, BucketTreeNodeData, leaf, left_right, BucketTreeNode, BucketTree, InsertResult,
  was_existing, replaced_bad, added, ignored,
}

-- The ids of the nodes lie from `lo` to below `hi`.
abbrev pub Within : ℕ → ℕ → List RoutingTableNode → Type 0
Within lo hi [] = Unit
Within lo hi (n ∷ ns) = (lo ≤ n.id) × (n.id < hi) × Within lo hi ns

abbrev pub Lacks : ℕ → List RoutingTableNode → Type 0
Lacks id [] = Unit
Lacks id (n ∷ ns) = (n.id ≢ id) × Lacks id ns

-- No id occurs twice.
abbrev pub Distinct : List RoutingTableNode → Type 0
Distinct [] = Unit
Distinct (n ∷ ns) = Lacks n.id ns × Distinct ns

-- A sum over nodes.
abbrev pub total : (RoutingTableNode → ℕ) → List RoutingTableNode → ℕ
total f [] = 0
total f (n ∷ ns) = f n + total f ns

abbrev pub total_data : (RoutingTableNode → ℕ) → BucketTreeNodeData → ℕ
total_data f (leaf bucket) = total f bucket.nodes
total_data f (left_right l r) = 0

abbrev pub total_tree : (RoutingTableNode → ℕ) → List BucketTreeNode → ℕ
total_tree f [] = 0
total_tree f (n ∷ ns) = total_data f n.data_of + total_tree f ns

-- The node at an index has these bits and this start.
pub record IsChild (arena : List BucketTreeNode) (idx bits start : ℕ) : Type 0 where
  pub child : BucketTreeNode
  pub there : get_elem? arena idx ≡ some child
  pub bits_eq : child.bits ≡ bits
  pub start_eq : child.start ≡ start

abbrev pub IsValidData : List BucketTreeNode → ℕ → ℕ → BucketTreeNodeData → Type 0
IsValidData arena bits start (leaf bucket) =
    Within start (start + 2 ^ bits) bucket.nodes × Distinct bucket.nodes × (length bucket.nodes ≤ 8)
IsValidData arena bits start (left_right l r) =
    (k : ℕ) × (bits ≡ suc k) × IsChild arena l k start × IsChild arena r k (start + 2 ^ k)

-- The ids of a node of the tree are the `2 ^ bits` from a multiple of this on; a leaf has at most 8 nodes,
-- with ids of these, and the children of another node have one half each.
pub record IsValidNode (arena : List BucketTreeNode) (n : BucketTreeNode) : Type 0 where
  pub few : n.bits ≤ 160
  pub quotient : ℕ
  pub aligned : n.start ≡ 2 ^ n.bits * quotient
  pub end_eq : n.end_inclusive + 1 ≡ n.start + 2 ^ n.bits
  pub inside : IsValidData arena n.bits n.start n.data_of

pub record IsValidArena (arena : List BucketTreeNode) : Type 0 where
  pub root : IsChild arena 0 160 0
  pub each : (i : ℕ) (n : BucketTreeNode) → get_elem? arena i ≡ some n → IsValidNode arena n

pub record IsValid (t : BucketTree) : Type 0 where
  pub valid_arena : IsValidArena t.arena
  pub counted : t.size ≡ total_tree (λ n. 1) t.arena
  pub bounded : t.size ≤ t.max_size

-- What an insertion does to a sum over the nodes.
abbrev pub Changes : (RoutingTableNode → ℕ) → RoutingTableNode → InsertResult → ℕ → ℕ → Type 0
Changes f new was_existing before after = after ≡ before
Changes f new ignored before after = after ≡ before
Changes f new added before after = after ≡ before + f new
Changes f new (replaced_bad old) before after = after + f old ≡ before + f new
