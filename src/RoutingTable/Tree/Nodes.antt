-- ===== src/RoutingTable/Tree/Nodes.antt =====
-- The nodes of a leaf: sorting, replacing and dividing them.
use rust_torrent.Prelude.{
  ℕ, ◌+◌, ◌≤◌, ◌<◌, ◌≡◌, ◌≢◌, sym, subst, false, Bool-cases, inl, inr, some, Option-cases, List, [],
  ◌∷◌, ◌++◌, length, ltb, ◌==◌, arith,
}
use mathlib.Core.Option.{some-injective}
use rust_torrent.RoutingTable.{RoutingTableNode, status, is_bad}
use rust_torrent.Prelude.Sort.{insert_by, sort_by}
use rust_torrent.RoutingTable.Tree.{id_le, any_id, replace_bad, below, not_below}
use rust_torrent.RoutingTable.Tree.Valid.{Within, Lacks, Distinct, total}

-- What the nodes of a leaf keep: their range, an id that is not among them, and a sum.
pub any_id-Lacks : (id : ℕ) (ns : List RoutingTableNode) → any_id id ns ≡ false → Lacks id ns
any_id-Lacks id [] h = tt
any_id-Lacks id (n ∷ ns) h = elim (Bool-cases (n.id == id)) [
  | inl t ↦ cc (rw t at h)
  | inr f ↦ (ground (arith, f), any_id-Lacks id ns (rw f at h))
]

module _ (lo hi : ℕ) where
  insert_by-Within :
      (x : RoutingTableNode) (ns : List RoutingTableNode)
      → lo ≤ x.id
      → x.id < hi
      → Within lo hi ns
      → Within lo hi (insert_by id_le x ns)
  unfolding insert_by
  insert_by-Within x [] a b w = (a, b, tt)
  insert_by-Within x (y ∷ ys) a b w = elim (Bool-cases (id_le x y)) [
    | inl t ↦ rw t (a, b, w)
    | inr f ↦ rw f (w.0, w.1, insert_by-Within x ys a b w.2)
  ]

  pub sort_by-Within :
      (ns : List RoutingTableNode) → Within lo hi ns → Within lo hi (sort_by id_le ns)
  unfolding sort_by
  sort_by-Within [] w = tt
  sort_by-Within (n ∷ ns) w = insert_by-Within n (sort_by id_le ns) w.0 w.1 (sort_by-Within ns w.2)

  pub append-Within :
      (ns : List RoutingTableNode) (x : RoutingTableNode)
      → Within lo hi ns
      → lo ≤ x.id
      → x.id < hi
      → Within lo hi (ns ++ (x ∷ []))
  append-Within [] x w a b = (a, b, tt)
  append-Within (n ∷ ns) x w a b = (w.0, w.1, append-Within ns x w.2 a b)

  pub below-Within :
      (rs : ℕ) (ns : List RoutingTableNode) → Within lo hi ns → Within lo rs (below rs ns)
  unfolding below
  below-Within rs [] w = tt
  below-Within rs (n ∷ ns) w = elim (Bool-cases (ltb n.id rs)) [
    | inl t ↦ rw t (w.0, ground (arith, t), below-Within rs ns w.2)
    | inr f ↦ rw f (below-Within rs ns w.2)
  ]

  pub not_below-Within :
      (rs : ℕ) (ns : List RoutingTableNode) → Within lo hi ns → Within rs hi (not_below rs ns)
  unfolding not_below
  not_below-Within rs [] w = tt
  not_below-Within rs (n ∷ ns) w = elim (Bool-cases (ltb n.id rs)) [
    | inl t ↦ rw t (not_below-Within rs ns w.2)
    | inr f ↦ rw f (ground (arith, f), w.1, not_below-Within rs ns w.2)
  ]

module _ (id : ℕ) where
  insert_by-Lacks :
      (x : RoutingTableNode) (ns : List RoutingTableNode)
      → x.id ≢ id
      → Lacks id ns
      → Lacks id (insert_by id_le x ns)
  unfolding insert_by
  insert_by-Lacks x [] a w = (a, tt)
  insert_by-Lacks x (y ∷ ys) a w = elim (Bool-cases (id_le x y)) [
    | inl t ↦ rw t (a, w)
    | inr f ↦ rw f (w.0, insert_by-Lacks x ys a w.1)
  ]

  sort_by-Lacks : (ns : List RoutingTableNode) → Lacks id ns → Lacks id (sort_by id_le ns)
  unfolding sort_by
  sort_by-Lacks [] w = tt
  sort_by-Lacks (n ∷ ns) w = insert_by-Lacks n (sort_by id_le ns) w.0 (sort_by-Lacks ns w.1)

  append-Lacks :
      (ns : List RoutingTableNode) (x : RoutingTableNode)
      → Lacks id ns
      → x.id ≢ id
      → Lacks id (ns ++ (x ∷ []))
  append-Lacks [] x w a = (a, tt)
  append-Lacks (n ∷ ns) x w a = (w.0, append-Lacks ns x w.1 a)

  below-Lacks : (rs : ℕ) (ns : List RoutingTableNode) → Lacks id ns → Lacks id (below rs ns)
  unfolding below
  below-Lacks rs [] w = tt
  below-Lacks rs (n ∷ ns) w = elim (Bool-cases (ltb n.id rs)) [
    | inl t ↦ rw t (w.0, below-Lacks rs ns w.1)
    | inr f ↦ rw f (below-Lacks rs ns w.1)
  ]

  not_below-Lacks : (rs : ℕ) (ns : List RoutingTableNode) → Lacks id ns → Lacks id (not_below rs ns)
  unfolding not_below
  not_below-Lacks rs [] w = tt
  not_below-Lacks rs (n ∷ ns) w = elim (Bool-cases (ltb n.id rs)) [
    | inl t ↦ rw t (not_below-Lacks rs ns w.1)
    | inr f ↦ rw f (w.0, not_below-Lacks rs ns w.1)
  ]

insert_by-Distinct :
    (x : RoutingTableNode) (ns : List RoutingTableNode)
    → Lacks x.id ns
    → Distinct ns
    → Distinct (insert_by id_le x ns)
unfolding insert_by
insert_by-Distinct x [] a d = (tt, tt)
insert_by-Distinct x (y ∷ ys) a d = elim (Bool-cases (id_le x y)) [
  | inl t ↦ rw t (a, d)
  | inr f ↦ rw f (insert_by-Lacks y.id x ys (λ e. a.0 (sym e)) d.0, insert_by-Distinct x ys a.1 d.1)
]

pub sort_by-Distinct : (ns : List RoutingTableNode) → Distinct ns → Distinct (sort_by id_le ns)
unfolding sort_by
sort_by-Distinct [] d = tt
sort_by-Distinct (n ∷ ns) d =
    insert_by-Distinct n (sort_by id_le ns) (sort_by-Lacks n.id ns d.0) (sort_by-Distinct ns d.1)

pub append-Distinct :
    (ns : List RoutingTableNode) (x : RoutingTableNode)
    → Distinct ns
    → Lacks x.id ns
    → Distinct (ns ++ (x ∷ []))
append-Distinct [] x d a = (tt, tt)
append-Distinct (n ∷ ns) x d a =
    (append-Lacks n.id ns x d.0 (λ e. a.0 (sym e)), append-Distinct ns x d.1 a.1)

pub below-Distinct : (rs : ℕ) (ns : List RoutingTableNode) → Distinct ns → Distinct (below rs ns)
unfolding below
below-Distinct rs [] d = tt
below-Distinct rs (n ∷ ns) d = elim (Bool-cases (ltb n.id rs)) [
  | inl t ↦ rw t (below-Lacks n.id rs ns d.0, below-Distinct rs ns d.1)
  | inr f ↦ rw f (below-Distinct rs ns d.1)
]

pub not_below-Distinct :
    (rs : ℕ) (ns : List RoutingTableNode) → Distinct ns → Distinct (not_below rs ns)
unfolding not_below
not_below-Distinct rs [] d = tt
not_below-Distinct rs (n ∷ ns) d = elim (Bool-cases (ltb n.id rs)) [
  | inl t ↦ rw t (not_below-Distinct rs ns d.1)
  | inr f ↦ rw f (not_below-Lacks n.id rs ns d.0, not_below-Distinct rs ns d.1)
]

-- What `replace_bad` leaves, if it finds a bad node.
pub record Replaces (new : RoutingTableNode) (ns ns' : List RoutingTableNode) (b : RoutingTableNode)
    : Type 0 where
  pub sums : (f : RoutingTableNode → ℕ) → total f ns' + f b ≡ total f ns + f new
  pub within : (lo hi : ℕ) → Within lo hi ns → lo ≤ new.id → new.id < hi → Within lo hi ns'
  pub lacks : (id : ℕ) → Lacks id ns → new.id ≢ id → Lacks id ns'
  pub distinct : Distinct ns → Lacks new.id ns → Distinct ns'

pub replace_bad-Replaces :
    (now : ℕ) (new : RoutingTableNode) (ns : List RoutingTableNode) {ns' : List RoutingTableNode}
    {b : RoutingTableNode}
    → replace_bad now new ns ≡ some (ns', b)
    → Replaces new ns ns' b
unfolding replace_bad
replace_bad-Replaces now new [] e = cc
replace_bad-Replaces now new (n ∷ ns) {ns'} {b} e = elim (Bool-cases (is_bad (status now n))) [
  | inl t ↦
      subst (λ (r : List RoutingTableNode × RoutingTableNode). Replaces new (n ∷ ns) r.0 r.1)
        (some-injective _ _ (rw t at e))
        (record {
          sums = λ f. omega arith;
          within = λ lo hi w a c. (a, c, w.2);
          lacks = λ id l ne. (ne, l.1);
          distinct = λ d l. (l.1, d.1);
        })
  | inr f ↦ elim (Option-cases (replace_bad now new ns)) [
    | inl none_bad ↦ cc (rw (f, none_bad) at e)
    | inr (others, found) ↦
        let r = replace_bad-Replaces now new ns found in
        subst (λ (r : List RoutingTableNode × RoutingTableNode). Replaces new (n ∷ ns) r.0 r.1)
          (some-injective _ _ (rw (f, found) at e))
          (record {
            sums = λ g. omega (arith, r.sums g);
            within = λ lo hi w a c. (w.0, w.1, r.within lo hi w.2 a c);
            lacks = λ id l ne. (l.0, r.lacks id l.1 ne);
            distinct = λ d l. (r.lacks n.id d.0 (λ q. l.0 (sym q)), r.distinct d.1 l.1);
          })
  ]
]

-- Three ids that differ do not lie among two numbers.
pub three_nodes :
    (lo hi : ℕ) (ns : List RoutingTableNode)
    → Within lo hi ns
    → Distinct ns
    → 3 ≤ length ns
    → lo + 2 < hi
three_nodes lo hi [] w d h = absurd (omega arith)
three_nodes lo hi (a ∷ []) w d h = absurd (omega arith)
three_nodes lo hi (a ∷ b ∷ []) w d h = absurd (omega arith)
three_nodes lo hi (a ∷ b ∷ c ∷ ns) w d h = omega arith
