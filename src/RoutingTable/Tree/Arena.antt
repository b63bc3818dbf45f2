-- ===== src/RoutingTable/Tree/Arena.antt =====
-- The nodes of a tree in their vector: a change of one of them, and new ones at the end.
use native.Mathlib.Decide.{ℕ_discrete}
use rust_torrent.Prelude.{
  ℕ, zero, suc, ◌+◌, ◌^◌, ◌≡◌, ◌≢◌, refl, sym, ◌∙◌, ap, subst, ◌⊎◌, inl, inr, some, List, [], ◌∷◌,
  ◌++◌, length, get_elem?, set, arith,
}
use mathlib.Core.Option.{some-injective}
use rust_torrent.RoutingTable.{
  RoutingTableNode, leaf, left_right, BucketTreeNodeData, BucketTreeNode,
}
use rust_torrent.RoutingTable.Tree.Valid.{
  total_data, total_tree, IsChild, IsValidData, IsValidNode, IsValidArena,
}

module _ {A : Type 0} where
  pub get_elem?-append :
      (xs ys : List A) (i : ℕ) {v : A} → get_elem? xs i ≡ some v → get_elem? (xs ++ ys) i ≡ some v
  get_elem?-append [] ys i h = cc
  get_elem?-append (x ∷ xs) ys zero h = h
  get_elem?-append (x ∷ xs) ys (suc i) h = get_elem?-append xs ys i h

  pub get_elem?-first : (xs ys : List A) (a : A) → get_elem? (xs ++ (a ∷ ys)) (length xs) ≡ some a
  get_elem?-first [] ys a = refl
  get_elem?-first (x ∷ xs) ys a = get_elem?-first xs ys a

  pub get_elem?-second :
      (xs : List A) (a b : A) → get_elem? (xs ++ (a ∷ b ∷ [])) (length xs + 1) ≡ some b
  get_elem?-second [] a b = refl
  get_elem?-second (x ∷ xs) a b =
      let e : suc (length xs) + 1 ≡ suc (length xs + 1) = omega arith in
      ap (get_elem? (x ∷ (xs ++ (a ∷ b ∷ [])))) e ∙ get_elem?-second xs a b

  pub get_elem?-two :
      (xs : List A) (a b : A) (i : ℕ) {v : A}
      → get_elem? (xs ++ (a ∷ b ∷ [])) i ≡ some v
      → (get_elem? xs i ≡ some v) ⊎ (v ≡ a) ⊎ (v ≡ b)
  get_elem?-two [] a b zero h = inr (inl (sym (some-injective _ _ h)))
  get_elem?-two [] a b (suc zero) h = inr (inr (sym (some-injective _ _ h)))
  get_elem?-two [] a b (suc (suc i)) h = cc
  get_elem?-two (x ∷ xs) a b zero h = inl h
  get_elem?-two (x ∷ xs) a b (suc i) h = get_elem?-two xs a b i h

  pub get_elem?-set_self :
      (xs : List A) (i : ℕ) (w : A) {v : A}
      → get_elem? xs i ≡ some v
      → get_elem? (set xs i w) i ≡ some w
  get_elem?-set_self [] i w h = cc
  get_elem?-set_self (x ∷ xs) zero w h = refl
  get_elem?-set_self (x ∷ xs) (suc i) w h = get_elem?-set_self xs i w h

  pub get_elem?-set_ne :
      (xs : List A) (i j : ℕ) (w : A) → i ≢ j → get_elem? (set xs i w) j ≡ get_elem? xs j
  get_elem?-set_ne [] i j w h = refl
  get_elem?-set_ne (x ∷ xs) zero zero w h = absurd (h refl)
  get_elem?-set_ne (x ∷ xs) zero (suc j) w h = refl
  get_elem?-set_ne (x ∷ xs) (suc i) zero w h = refl
  get_elem?-set_ne (x ∷ xs) (suc i) (suc j) w h = get_elem?-set_ne xs i j w (λ e. h (ap suc e))

module _ (f : RoutingTableNode → ℕ) where
  pub total_tree-set :
      (arena : List BucketTreeNode) (i : ℕ) (n' : BucketTreeNode) {n : BucketTreeNode}
      → get_elem? arena i ≡ some n
      → total_tree f (set arena i n') + total_data f n.data_of
        ≡ total_tree f arena + total_data f n'.data_of
  total_tree-set [] i n' h = cc
  total_tree-set (x ∷ xs) zero n' h =
      omega (arith, ap (λ (m : BucketTreeNode). total_data f m.data_of) (some-injective _ _ h))
  total_tree-set (x ∷ xs) (suc i) n' h = omega (arith, total_tree-set xs i n' h)

  pub total_tree-append :
      (xs ys : List BucketTreeNode) → total_tree f (xs ++ ys) ≡ total_tree f xs + total_tree f ys
  total_tree-append [] ys = omega arith
  total_tree-append (x ∷ xs) ys = omega (arith, total_tree-append xs ys)

-- Each child of one vector is a child of the other.
abbrev pub Extends : List BucketTreeNode → List BucketTreeNode → Type 0
Extends arena arena' =
    (idx bits start : ℕ) → IsChild arena idx bits start → IsChild arena' idx bits start

pub append-Extends : (arena ys : List BucketTreeNode) → Extends arena (arena ++ ys)
append-Extends arena ys idx bits start c = record {
  child = c.child;
  there = get_elem?-append arena ys idx c.there;
  bits_eq = c.bits_eq;
  start_eq = c.start_eq;
}

pub set-Extends :
    (arena : List BucketTreeNode) (i : ℕ) (n n' : BucketTreeNode)
    → get_elem? arena i ≡ some n
    → n'.bits ≡ n.bits
    → n'.start ≡ n.start
    → Extends arena (set arena i n')
set-Extends arena i n n' h b s idx bits start c = elim (ℕ_discrete i idx) [
  | yes e ↦
      let same : c.child ≡ n =
        some-injective _ _ (sym c.there ∙ ap (get_elem? arena) (sym e) ∙ h) in
      record {
        child = n';
        there = ap (get_elem? (set arena i n')) (sym e) ∙ get_elem?-set_self arena i n' h;
        bits_eq = b ∙ ap (λ (m : BucketTreeNode). m.bits) (sym same) ∙ c.bits_eq;
        start_eq = s ∙ ap (λ (m : BucketTreeNode). m.start) (sym same) ∙ c.start_eq;
      }
  | no ne ↦ record {
    child = c.child;
    there = get_elem?-set_ne arena i idx n' ne ∙ c.there;
    bits_eq = c.bits_eq;
    start_eq = c.start_eq;
  }
]

IsValidData-Extends :
    (arena arena' : List BucketTreeNode) (bits start : ℕ) (d : BucketTreeNodeData)
    → Extends arena arena'
    → IsValidData arena bits start d
    → IsValidData arena' bits start d
IsValidData-Extends arena arena' bits start (leaf bucket) x v = v
IsValidData-Extends arena arena' bits start (left_right l r) x (k, e, a, b) =
    (k, e, x l k start a, x r k (start + 2 ^ k) b)

pub IsValidNode-Extends :
    (arena arena' : List BucketTreeNode) (n : BucketTreeNode)
    → Extends arena arena'
    → IsValidNode arena n
    → IsValidNode arena' n
IsValidNode-Extends arena arena' n x v = record {
  few = v.few;
  quotient = v.quotient;
  aligned = v.aligned;
  end_eq = v.end_eq;
  inside = IsValidData-Extends arena arena' n.bits n.start n.data_of x v.inside;
}

pub set-IsValidArena :
    (arena : List BucketTreeNode) (i : ℕ) (n n' : BucketTreeNode)
    → IsValidArena arena
    → get_elem? arena i ≡ some n
    → n'.bits ≡ n.bits
    → n'.start ≡ n.start
    → IsValidNode (set arena i n') n'
    → IsValidArena (set arena i n')
set-IsValidArena arena i n n' v h b s w =
    let x = set-Extends arena i n n' h b s in
    record {
      root = x 0 160 0 v.root;
      each = λ j m e. elim (ℕ_discrete i j) [
        | yes q ↦
            subst (IsValidNode (set arena i n'))
              (some-injective _ _
                (sym (get_elem?-set_self arena i n' h) ∙ ap (get_elem? (set arena i n')) q ∙ e))
              w
        | no ne ↦
            IsValidNode-Extends arena (set arena i n') m x
              (v.each j m (sym (get_elem?-set_ne arena i j n' ne) ∙ e))
      ];
    }
