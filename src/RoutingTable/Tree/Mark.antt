-- ===== src/RoutingTable/Tree/Mark.antt =====
-- Changing a node of the tree through `get_mut`.
use rust_torrent.Prelude.{
  ℕ, ◌+◌, ◌^◌, ◌<◌, ◌≡◌, refl, sym, ◌∙◌, Bool, true, false, Bool-cases, ==→eq, inl, inr, Option,
  none, some, List, [], ◌∷◌, get_elem?, set, ◌==◌, arith,
}
use rust_torrent.RoutingTable.{RoutingTableNode, LeafBucket, leaf, BucketTreeNode, BucketTree}
use rust_torrent.RoutingTable.Tree.{any_id, get_leaf, update_first, get_mut}
use rust_torrent.RoutingTable.Tree.Valid.{Within, Lacks, Distinct, total, total_tree, IsValid}
use rust_torrent.RoutingTable.Tree.Sums.{length-total}
use rust_torrent.RoutingTable.Tree.Descend.{get_leaf-IsLeafFor}
use rust_torrent.RoutingTable.Tree.Leaf.{
  leaf_inside, leaf_then, leaf_then-IsValidArena, total-leaf_then,
}

-- A node was changed, or nothing.
abbrev pub Marks :
    (RoutingTableNode → RoutingTableNode) → ℕ → Bool → BucketTree → BucketTree → Type 0
Marks g id true t t' =
    (n : RoutingTableNode) × (n.id ≡ id)
    × ((f : RoutingTableNode → ℕ) → total_tree f t'.arena + f n ≡ total_tree f t.arena + f (g n))
Marks g id false t t' = t' ≡ t

module _ (id : ℕ) (g : RoutingTableNode → RoutingTableNode)
    (keeps : (n : RoutingTableNode) → (g n).id ≡ n.id) where
  update_first-Within :
      (lo hi : ℕ) (ns : List RoutingTableNode)
      → Within lo hi ns
      → Within lo hi (update_first id g ns)
  update_first-Within lo hi [] w = tt
  update_first-Within lo hi (n ∷ ns) w = elim (Bool-cases (n.id == id)) [
    | inl t ↦ rw t (omega (arith, w.0, keeps n), omega (arith, w.1, keeps n), w.2)
    | inr f ↦ rw f (w.0, w.1, update_first-Within lo hi ns w.2)
  ]

  update_first-Lacks :
      (other : ℕ) (ns : List RoutingTableNode) → Lacks other ns → Lacks other (update_first id g ns)
  update_first-Lacks other [] w = tt
  update_first-Lacks other (n ∷ ns) w = elim (Bool-cases (n.id == id)) [
    | inl t ↦ rw t ((λ e. w.0 (sym (keeps n) ∙ e)), w.1)
    | inr f ↦ rw f (w.0, update_first-Lacks other ns w.1)
  ]

  update_first-Distinct :
      (ns : List RoutingTableNode) → Distinct ns → Distinct (update_first id g ns)
  update_first-Distinct [] d = tt
  update_first-Distinct (n ∷ ns) d = elim (Bool-cases (n.id == id)) [
    | inl t ↦ rw (t, keeps n) d
    | inr f ↦ rw f (update_first-Lacks n.id ns d.0, update_first-Distinct ns d.1)
  ]

  update_first-total :
      (ns : List RoutingTableNode)
      → any_id id ns ≡ true
      → (n : RoutingTableNode) × (n.id ≡ id)
        × ((f : RoutingTableNode → ℕ) → total f (update_first id g ns) + f n ≡ total f ns + f (g n))
  update_first-total [] h = cc
  update_first-total (n ∷ ns) h = elim (Bool-cases (n.id == id)) [
    | inl t ↦ (n, ==→eq n.id id t, λ f. rw t (omega arith))
    | inr e ↦
        let (m, same, sums) = update_first-total ns (rw e at h) in
        (m, same, λ f. rw e (omega (arith, sums f)))
  ]

  abbrev marked_bucket : Option ℕ → LeafBucket → LeafBucket
  marked_bucket refresh b = record {
    nodes = update_first id g b.nodes;
    last_refreshed = elim refresh [ none ↦ b.last_refreshed | some now ↦ now ];
  }

  get_mut-found :
      (t : BucketTree) (refresh : Option ℕ) (idx : ℕ) (n : BucketTreeNode) (b : LeafBucket)
      → get_leaf id t.arena ≡ some idx
      → get_elem? t.arena idx ≡ some n
      → n.data_of ≡ leaf b
      → any_id id b.nodes ≡ true
      → get_mut id refresh g t
        ≡ some (
          true,
          record t {
            arena = set t.arena idx (record n { data_of = leaf (marked_bucket refresh b) });
          },
        )
  unfolding get_mut
  get_mut-found t refresh idx n b down there is_leaf known =
      rw (get_mut, down, there, is_leaf, known) refl

  get_mut-absent :
      (t : BucketTree) (refresh : Option ℕ) (idx : ℕ) (n : BucketTreeNode) (b : LeafBucket)
      → get_leaf id t.arena ≡ some idx
      → get_elem? t.arena idx ≡ some n
      → n.data_of ≡ leaf b
      → any_id id b.nodes ≡ false
      → get_mut id refresh g t ≡ some (false, t)
  unfolding get_mut
  get_mut-absent t refresh idx n b down there is_leaf absent =
      rw (get_mut, down, there, is_leaf, absent) refl

  -- On a well-formed tree and for an id below 2 ^ 160, `get_mut` with a change that keeps ids
  -- returns and leaves a well-formed tree with the same maximum. If it finds a node, this has the
  -- id, and it alone is changed, as the sum of any function over the nodes tells; otherwise the
  -- tree is the same.
  pub get_mut-Marks :
      (t : BucketTree) (refresh : Option ℕ)
      → IsValid t
      → id < 2 ^ 160
      → (found : Bool) × (t' : BucketTree) × (get_mut id refresh g t ≡ some (found, t'))
        × IsValid t'
        × (t'.max_size ≡ t.max_size)
        × Marks g id found t t'
  get_mut-Marks t refresh v h =
      let (idx, down, l) = get_leaf-IsLeafFor t.arena v.valid_arena id h in
      let (w, d, few) = leaf_inside v.valid_arena l in
      let ns = l.bucket.nodes in
      elim (Bool-cases (any_id id ns)) [
        | inr absent ↦ (
          false,
          t,
          get_mut-absent t refresh idx l.node l.bucket down l.there l.is_leaf absent,
          v,
          refl,
          refl,
        )
        | inl known ↦
            let (n, same, sums) = update_first-total ns known in
            let b = marked_bucket refresh l.bucket in
            let sum : (f : RoutingTableNode → ℕ)
                → total_tree f (set t.arena idx (leaf_then v.valid_arena l b)) + f n
                  ≡ total_tree f t.arena + f (g n) =
              λ f. omega (arith, total-leaf_then v.valid_arena l f b, sums f) in
            (
              true,
              record t { arena = set t.arena idx (leaf_then v.valid_arena l b) },
              get_mut-found t refresh idx l.node l.bucket down l.there l.is_leaf known,
              record {
                valid_arena =
                    leaf_then-IsValidArena v.valid_arena l b
                      (update_first-Within l.node.start (l.node.start + 2 ^ l.node.bits) ns w)
                      (update_first-Distinct ns d)
                      (omega (
                        arith,
                        few,
                        length-total ns,
                        length-total (update_first id g ns),
                        sums (λ m. 1),
                      ));
                counted = omega (arith, v.counted, sum (λ m. 1));
                bounded = v.bounded;
              },
              refl,
              (n, same, sum),
            )
      ]
