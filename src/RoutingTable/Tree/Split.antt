-- ===== src/RoutingTable/Tree/Split.antt =====
-- The split of a full leaf into two.
use rust_torrent.Prelude.{
  ℕ, zero, suc, ◌+◌, ◌-◌, ◌*◌, ◌^◌, ◌≤◌, ◌<◌, ◌≡◌, refl, sym, ◌∙◌, ap, subst, inl, inr, Bool-cases,
  some, List, [], ◌∷◌, ◌++◌, length, get_elem?, set, ltb, if◌then◌else◌, arith,
}
use rust_torrent.RoutingTable.{
  RoutingTableNode, BucketTreeNodeData, leaf, left_right, BucketTreeNode, compute_split_start_end,
}
use rust_torrent.RoutingTable.Tree.{below, not_below, split_leaf}
use rust_torrent.RoutingTable.Tree.Valid.{
  Within, total, total_data, total_tree, IsChild, IsValidNode, IsValidArena,
}
use rust_torrent.RoutingTable.Tree.Nodes.{
  below-Within, not_below-Within, below-Distinct, not_below-Distinct, three_nodes,
}
use rust_torrent.RoutingTable.Tree.Sums.{total-below, length-total}
use rust_torrent.RoutingTable.Tree.Halves.{pow_two_suc, pow_two_pos, compute_split_start_end_lem}
use rust_torrent.RoutingTable.Tree.Arena.{
  get_elem?-append, get_elem?-first, get_elem?-second, get_elem?-two, get_elem?-set_ne,
  total_tree-set, total_tree-append, append-Extends, set-Extends, IsValidNode-Extends,
  set-IsValidArena,
}
use rust_torrent.RoutingTable.Tree.Descend.{IsLeafFor}
use rust_torrent.RoutingTable.Tree.Leaf.{leaf_inside}

index_lt : {A : Type 0} (xs : List A) (i : ℕ) {v : A} → get_elem? xs i ≡ some v → i < length xs
index_lt [] i h = cc
index_lt (x ∷ xs) zero h = omega arith
index_lt (x ∷ xs) (suc i) h = omega (arith, index_lt xs i h)

-- Four numbers at least have two bits at least.
two_bits : (bits : ℕ) → 2 < 2 ^ bits → (j : ℕ) × (bits ≡ suc (suc j))
two_bits zero h = absurd (omega arith)
two_bits (suc zero) h = absurd (omega arith)
two_bits (suc (suc j)) h = (j, refl)

-- What a split leaves: a well-formed tree with the same nodes, and the leaf for the id, of fewer bits.
pub record IsSplit (arena arena' : List BucketTreeNode) (id idx' bits : ℕ) : Type 0 where
  pub valid : IsValidArena arena'
  pub sums : (f : RoutingTableNode → ℕ) → total_tree f arena' ≡ total_tree f arena
  pub next : IsLeafFor arena' id idx'
  pub fewer : next.node.bits + 1 ≡ bits

module _ {arena : List BucketTreeNode} (v : IsValidArena arena) {id idx : ℕ}
    (l : IsLeafFor arena id idx) (now j : ℕ) (b : l.node.bits ≡ suc (suc j)) where
  abbrev half : ℕ
  half = 2 ^ suc j

  abbrev rs : ℕ
  rs = l.node.start + half

  abbrev left_leaf : BucketTreeNode
  left_leaf = record {
    bits = l.node.bits - 1;
    start = l.node.start;
    end_inclusive = l.node.end_inclusive - half;
    data_of = leaf (record { nodes = below rs l.bucket.nodes; last_refreshed = now });
  }

  abbrev right_leaf : BucketTreeNode
  right_leaf = record {
    bits = l.node.bits - 1;
    start = rs;
    end_inclusive = l.node.end_inclusive;
    data_of = leaf (record { nodes = not_below rs l.bucket.nodes; last_refreshed = now });
  }

  abbrev longer : List BucketTreeNode
  longer = arena ++ (left_leaf ∷ right_leaf ∷ [])

  abbrev parent : BucketTreeNode
  parent = record l.node { data_of = left_right (length arena) (length arena + 1) }

  abbrev halved : List BucketTreeNode
  halved = set longer idx parent

  split_leaf-halved :
      split_leaf now idx l.node l.bucket.nodes arena
      ≡ some (halved, rs, length arena, length arena + 1)
  unfolding split_leaf
  split_leaf-halved =
      let n = v.each idx l.node l.there in
      let e : compute_split_start_end l.node.start l.node.end_inclusive l.node.bits
          ≡ some ((l.node.start, l.node.end_inclusive - half), (rs, l.node.end_inclusive)) =
        ap (compute_split_start_end l.node.start l.node.end_inclusive) b
        ∙ compute_split_start_end_lem j n.quotient l.node.start l.node.end_inclusive
            (omega (arith, n.few, b)) (n.aligned ∙ ap (λ (k : ℕ). 2 ^ k * n.quotient) b)
            (n.end_eq ∙ ap (λ (k : ℕ). l.node.start + 2 ^ k) b) in
      rw e refl

  bits_left : l.node.bits - 1 ≡ suc j
  bits_left = omega (arith, b)

  double : 2 ^ l.node.bits ≡ half + half
  double = ap (λ (k : ℕ). 2 ^ k) b ∙ pow_two_suc (suc j)

  left_leaf-IsValidNode : (arena' : List BucketTreeNode) → IsValidNode arena' left_leaf
  left_leaf-IsValidNode arena' =
      let n = v.each idx l.node l.there in
      let (w, d, few) = leaf_inside v l in
      let w' : Within l.node.start (l.node.start + 2 ^ (l.node.bits - 1))
          (below rs l.bucket.nodes) =
        rw bits_left
          (below-Within l.node.start (l.node.start + 2 ^ l.node.bits) rs l.bucket.nodes w) in
      let p : 2 ^ (l.node.bits - 1) ≡ half = ap (λ (k : ℕ). 2 ^ k) bits_left in
      record {
        few = omega (arith, n.few);
        quotient = 2 * n.quotient;
        aligned =
            n.aligned
            ∙ ap (λ (x : ℕ). x * n.quotient) (double ∙ ap (λ (x : ℕ). x + x) (sym p))
            ∙ grind arith;
        end_eq = omega (arith, n.end_eq, double, p, pow_two_pos (suc j));
        inside = (
          w',
          below-Distinct rs l.bucket.nodes d,
          omega (
            arith,
            few,
            total-below (λ m. 1) rs l.bucket.nodes,
            length-total l.bucket.nodes,
            length-total (below rs l.bucket.nodes),
          ),
        );
      }

  right_leaf-IsValidNode : (arena' : List BucketTreeNode) → IsValidNode arena' right_leaf
  right_leaf-IsValidNode arena' =
      let n = v.each idx l.node l.there in
      let (w, d, few) = leaf_inside v l in
      let p : 2 ^ (l.node.bits - 1) ≡ half = ap (λ (k : ℕ). 2 ^ k) bits_left in
      let top : rs + 2 ^ (l.node.bits - 1) ≡ l.node.start + 2 ^ l.node.bits =
        omega (arith, p, double) in
      record {
        few = omega (arith, n.few);
        quotient = 2 * n.quotient + 1;
        aligned =
            ap (λ (x : ℕ). x + half) (n.aligned ∙ ap (λ (x : ℕ). x * n.quotient) double)
            ∙ rw p (grind arith);
        end_eq = omega (arith, n.end_eq, double, p);
        inside = (
          rw top
              (not_below-Within l.node.start (l.node.start + 2 ^ l.node.bits) rs l.bucket.nodes w),
          not_below-Distinct rs l.bucket.nodes d,
          omega (
            arith,
            few,
            total-below (λ m. 1) rs l.bucket.nodes,
            length-total l.bucket.nodes,
            length-total (not_below rs l.bucket.nodes),
          ),
        );
      }

  there_longer : get_elem? longer idx ≡ some l.node
  there_longer = get_elem?-append arena (left_leaf ∷ right_leaf ∷ []) idx l.there

  longer-IsValidArena : IsValidArena longer
  longer-IsValidArena =
      let x = append-Extends arena (left_leaf ∷ right_leaf ∷ []) in
      record {
        root = x 0 160 0 v.root;
        each = λ i m e. elim (get_elem?-two arena left_leaf right_leaf i e) [
          | inl old ↦ IsValidNode-Extends arena longer m x (v.each i m old)
          | inr (inl q) ↦ subst (IsValidNode longer) (sym q) (left_leaf-IsValidNode longer)
          | inr (inr q) ↦ subst (IsValidNode longer) (sym q) (right_leaf-IsValidNode longer)
        ];
      }

  halved-IsValidArena : IsValidArena halved
  halved-IsValidArena =
      let n = v.each idx l.node l.there in
      let x = set-Extends longer idx l.node parent there_longer refl refl in
      let left : IsChild longer (length arena) (suc j) l.node.start = record {
        child = left_leaf;
        there = get_elem?-first arena (right_leaf ∷ []) left_leaf;
        bits_eq = bits_left;
        start_eq = refl;
      } in
      let right : IsChild longer (length arena + 1) (suc j) rs = record {
        child = right_leaf;
        there = get_elem?-second arena left_leaf right_leaf;
        bits_eq = bits_left;
        start_eq = refl;
      } in
      set-IsValidArena longer idx l.node parent longer-IsValidArena there_longer refl refl (record {
        few = n.few;
        quotient = n.quotient;
        aligned = n.aligned;
        end_eq = n.end_eq;
        inside = (suc j, b, x _ _ _ left, x _ _ _ right);
      })

  halved-sums : (f : RoutingTableNode → ℕ) → total_tree f halved ≡ total_tree f arena
  halved-sums f =
      let changed : total_tree f halved + total f l.bucket.nodes ≡ total_tree f longer + 0 =
        subst
          (λ (d : BucketTreeNodeData).
            total_tree f halved + total_data f d ≡ total_tree f longer + 0)
          l.is_leaf (total_tree-set f longer idx parent there_longer) in
      omega (
        arith,
        changed,
        total_tree-append f arena (left_leaf ∷ right_leaf ∷ []),
        total-below f rs l.bucket.nodes,
      )

  halved-next :
      IsSplit arena halved id (if ltb id rs then length arena else length arena + 1) l.node.bits
  halved-next =
      let inside = index_lt arena idx l.there in
      let p : 2 ^ (l.node.bits - 1) ≡ half = ap (λ (k : ℕ). 2 ^ k) bits_left in
      elim (Bool-cases (ltb id rs)) [
        | inl t ↦
            let low : id < l.node.start + 2 ^ (l.node.bits - 1) = ground (arith, t, p) in
            rw t (record {
              valid = halved-IsValidArena;
              sums = halved-sums;
              next = record {
                node = left_leaf;
                bucket = record { nodes = below rs l.bucket.nodes; last_refreshed = now };
                there =
                    get_elem?-set_ne longer idx (length arena) parent
                      (λ e. omega (arith, e, inside))
                    ∙ get_elem?-first arena (right_leaf ∷ []) left_leaf;
                is_leaf = refl;
                lo = l.lo;
                hi = low;
              };
              fewer = omega (arith, b);
            })
        | inr f ↦
            let high : id < rs + 2 ^ (l.node.bits - 1) = omega (arith, l.hi, double, p) in
            rw f (record {
              valid = halved-IsValidArena;
              sums = halved-sums;
              next = record {
                node = right_leaf;
                bucket = record { nodes = not_below rs l.bucket.nodes; last_refreshed = now };
                there =
                    get_elem?-set_ne longer idx (length arena + 1) parent
                      (λ e. omega (arith, e, inside))
                    ∙ get_elem?-second arena left_leaf right_leaf;
                is_leaf = refl;
                lo = ground (arith, f);
                hi = high;
              };
              fewer = omega (arith, b);
            })
      ]

-- A leaf with three nodes or more can be split: neither an index nor an assertion fails.
pub split_leaf-IsSplit :
    {arena : List BucketTreeNode} (v : IsValidArena arena) {id idx : ℕ} (l : IsLeafFor arena id idx)
    (now : ℕ)
    → 3 ≤ length l.bucket.nodes
    → (arena' : List BucketTreeNode) × (rs left right : ℕ) × (split_leaf now idx l.node
          l.bucket.nodes arena
        ≡ some (arena', rs, left, right))
      × IsSplit arena arena' id (if ltb id rs then left else right) l.node.bits
split_leaf-IsSplit {arena} v {id} {idx} l now many =
    let (w, d, few) = leaf_inside v l in
    let wide = three_nodes l.node.start (l.node.start + 2 ^ l.node.bits) l.bucket.nodes w d many in
    let (j, b) = two_bits l.node.bits (omega (arith, wide)) in
    (
      halved v l now j b,
      l.node.start + 2 ^ suc j,
      length arena,
      length arena + 1,
      split_leaf-halved v l now j b,
      halved-next v l now j b,
    )
