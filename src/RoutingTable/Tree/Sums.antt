-- ===== src/RoutingTable/Tree/Sums.antt =====
-- Sums over the nodes of a leaf that are sorted or divided.
use rust_torrent.Prelude.{
  ℕ, ◌+◌, ◌≡◌, refl, Bool, Bool-cases, inl, inr, List, [], ◌∷◌, ◌++◌, length, ltb, arith,
}
use rust_torrent.RoutingTable.{RoutingTableNode}
use rust_torrent.Prelude.Sort.{insert_by, sort_by}
use rust_torrent.RoutingTable.Tree.{below, not_below}
use rust_torrent.RoutingTable.Tree.Valid.{total}

module _ (f : RoutingTableNode → ℕ) where
  total-insert_by :
      (le : RoutingTableNode → RoutingTableNode → Bool) (x : RoutingTableNode)
      (ns : List RoutingTableNode)
      → total f (insert_by le x ns) ≡ f x + total f ns
  unfolding insert_by
  total-insert_by le x [] = refl
  total-insert_by le x (y ∷ ys) = elim (Bool-cases (le x y)) [
    | inl t ↦ rw t refl
    | inr e ↦ rw e (omega (arith, total-insert_by le x ys))
  ]

  pub total-sort_by :
      (le : RoutingTableNode → RoutingTableNode → Bool) (ns : List RoutingTableNode)
      → total f (sort_by le ns) ≡ total f ns
  unfolding sort_by
  total-sort_by le [] = refl
  total-sort_by le (n ∷ ns) =
      omega (arith, total-insert_by le n (sort_by le ns), total-sort_by le ns)

  pub total-append : (ns ms : List RoutingTableNode) → total f (ns ++ ms) ≡ total f ns + total f ms
  total-append [] ms = omega arith
  total-append (n ∷ ns) ms = omega (arith, total-append ns ms)

  pub total-below :
      (rs : ℕ) (ns : List RoutingTableNode)
      → total f (below rs ns) + total f (not_below rs ns) ≡ total f ns
  unfolding below not_below
  total-below rs [] = omega arith
  total-below rs (n ∷ ns) = elim (Bool-cases (ltb n.id rs)) [
    | inl t ↦ rw t (omega (arith, total-below rs ns))
    | inr e ↦ rw e (omega (arith, total-below rs ns))
  ]

pub length-total : (ns : List RoutingTableNode) → length ns ≡ total (λ n. 1) ns
length-total [] = refl
length-total (n ∷ ns) = omega (arith, length-total ns)
