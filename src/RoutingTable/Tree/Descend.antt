-- ===== src/RoutingTable/Tree/Descend.antt =====
-- The way down to the leaf of an id.
use rust_torrent.Prelude.{
  ℕ, zero, suc, ◌+◌, ◌^◌, ◌≤◌, ◌<◌, ◌≡◌, refl, sym, ◌∙◌, ap, true, false, Bool-cases, inl, inr,
  some, List, get_elem?, arith,
}
use rust_torrent.RoutingTable.{LeafBucket, BucketTreeNodeData, leaf, left_right, BucketTreeNode}
use rust_torrent.RoutingTable.Tree.{in_range, get_leaf_from, get_leaf}
use rust_torrent.RoutingTable.Tree.Valid.{IsChild, IsValidData, IsValidArena}
use rust_torrent.RoutingTable.Tree.Halves.{pow_two_suc}

-- The node at an index is a leaf in whose range the id lies.
pub record IsLeafFor (arena : List BucketTreeNode) (id idx : ℕ) : Type 0 where
  pub node : BucketTreeNode
  pub bucket : LeafBucket
  pub there : get_elem? arena idx ≡ some node
  pub is_leaf : node.data_of ≡ leaf bucket
  pub lo : node.start ≤ id
  pub hi : id < node.start + 2 ^ node.bits

module _ (arena : List BucketTreeNode) (v : IsValidArena arena) (id : ℕ) where
  in_left :
      (l k start : ℕ) (c : IsChild arena l k start)
      → in_range id c.child ≡ true
      → (start ≤ id) × (id < start + 2 ^ k)
  in_left l k start c h =
      let w = v.each l c.child c.there in
      let p : 2 ^ c.child.bits ≡ 2 ^ k = ap (λ (b : ℕ). 2 ^ b) c.bits_eq in
      (ground (arith, h, c.start_eq), ground (arith, h, c.start_eq, w.end_eq, p))

  in_right :
      (l k start : ℕ) (c : IsChild arena l k start)
      → in_range id c.child ≡ false
      → start ≤ id
      → start + 2 ^ k ≤ id
  in_right l k start c h lo =
      let w = v.each l c.child c.there in
      let p : 2 ^ c.child.bits ≡ 2 ^ k = ap (λ (b : ℕ). 2 ^ b) c.bits_eq in
      ground (arith, h, c.start_eq, w.end_eq, p)

  abbrev Leads : ℕ → Type 0
  Leads fuel =
      (idx bits start : ℕ)
      → IsChild arena idx bits start
      → bits < fuel
      → start ≤ id
      → id < start + 2 ^ bits
      → (i : ℕ) × (get_leaf_from fuel idx id arena ≡ some i) × IsLeafFor arena id i

  step :
      (fuel : ℕ)
      → Leads fuel
      → {idx bits start : ℕ} (c : IsChild arena idx bits start) → start ≤ id
      → id < start + 2 ^ bits
      → bits < suc fuel
      → (d : BucketTreeNodeData) → c.child.data_of ≡ d
      → IsValidData arena c.child.bits c.child.start d
      → (i : ℕ) × (get_leaf_from (suc fuel) idx id arena ≡ some i) × IsLeafFor arena id i
  unfolding get_leaf_from
  step fuel rec {idx} {bits} {start} c lo hi f (leaf bucket) e w = (
    idx,
    rw (c.there, e) refl,
    record {
      node = c.child;
      bucket = bucket;
      there = c.there;
      is_leaf = e;
      lo = rw (c.start_eq) lo;
      hi = rw (c.start_eq, c.bits_eq) hi;
    },
  )
  step fuel rec {idx} {bits} {start} c lo hi f (left_right l r) e (k, more, left, right) =
      let bits_eq : bits ≡ suc k = sym c.bits_eq ∙ more in
      let double : 2 ^ bits ≡ 2 ^ k + 2 ^ k = ap (λ (b : ℕ). 2 ^ b) bits_eq ∙ pow_two_suc k in
      elim (Bool-cases (in_range id left.child)) [
        | inl t ↦
            let inside = in_left l k c.child.start left t in
            let (i, eq, found) = rec l k c.child.start left (omega arith) inside.0 inside.1 in
            (i, rw (get_leaf_from, c.there, e, left.there, t) eq, found)
        | inr n ↦
            let after = in_right l k c.child.start left n (omega (arith, c.start_eq)) in
            let (i, eq, found) =
              rec r k (c.child.start + 2 ^ k) right (omega arith) after
                (omega (arith, hi, double, c.start_eq)) in
            (i, rw (get_leaf_from, c.there, e, left.there, n) eq, found)
      ]

  get_leaf_from-IsLeafFor : (fuel : ℕ) → Leads fuel
  get_leaf_from-IsLeafFor zero idx bits start c f lo hi = absurd (omega arith)
  get_leaf_from-IsLeafFor (suc fuel) idx bits start c f lo hi =
      step fuel (get_leaf_from-IsLeafFor fuel) c lo hi f c.child.data_of refl
        (v.each idx c.child c.there).inside

pub get_leaf-IsLeafFor :
    (arena : List BucketTreeNode) (v : IsValidArena arena) (id : ℕ)
    → id < 2 ^ 160
    → (i : ℕ) × (get_leaf id arena ≡ some i) × IsLeafFor arena id i
unfolding get_leaf
get_leaf-IsLeafFor arena v id h =
    get_leaf_from-IsLeafFor arena v id 161 0 160 0 v.root (omega arith) (omega arith)
      (omega (arith, h))
