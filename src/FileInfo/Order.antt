-- ===== src/FileInfo/Order.antt =====
-- The priority order against the range of the pieces.
use rust_torrent.Prelude.{
  ℕ, zero, suc, ◌+◌, ◌-◌, ◌<◌, ◌≤◌, ◌≡◌, true, refl, ap, ◌∙◌, List, [], ◌∷◌, ◌++◌, u64_mod,
  range_from, take, drop, arith, sub_u64, add_u64, subst,
}
use rust_torrent.Prelude.Members.{member, member-range_from}
use rust_torrent.Lengths.{Range}
use rust_torrent.FileInfo.{iter_piece_priorities, range_list}
use mathlib.Core.List.{Perm, perm_middle, append-nil}
use mathlib.Core.List.Perm

take-range_from : (s n : ℕ) → take n (range_from s (suc n)) ≡ range_from s n
take-range_from s zero = refl
take-range_from s (suc n) = ap (λ t. s ∷ t) (take-range_from (s + 1) n)

take-range_from_self : (s n : ℕ) → take n (range_from s n) ≡ range_from s n
take-range_from_self s zero = refl
take-range_from_self s (suc n) = ap (λ t. s ∷ t) (take-range_from_self (s + 1) n)

range_from-snoc : (s n : ℕ) → range_from s (suc n) ≡ range_from s n ++ ((s + n) ∷ [])
range_from-snoc s zero = ap (λ k. k ∷ []) (omega arith)
range_from-snoc s (suc n) =
    ap (λ t. s ∷ t)
      (range_from-snoc (s + 1) n ∙ ap (λ k. range_from (s + 1) n ++ (k ∷ [])) (omega arith))

perm_tail : (xs : List ℕ) (a : ℕ) → Perm (xs ++ (a ∷ [])) (a ∷ xs)
perm_tail xs a = subst (λ t. Perm (xs ++ (a ∷ [])) (a ∷ t)) (append-nil xs) (perm_middle xs [])

-- The order over the start and the number of pieces.
order_from : ℕ → ℕ → List ℕ
order_from s n = take n (s ∷ add_u64 s (sub_u64 n 1) ∷ take (sub_u64 n 2) (drop 1 (range_from s n)))

order_from-perm : (s n : ℕ) → s + n < u64_mod → Perm (order_from s n) (range_from s n)
unfolding order_from
order_from-perm s zero h = Perm.refl []
order_from-perm s (suc zero) h = Perm.refl (s ∷ [])
order_from-perm s (suc (suc m)) h =
    let last_eq : add_u64 s (sub_u64 (suc (suc m)) 1) ≡ s + 1 + m = omega arith in
    let mid_eq : sub_u64 (suc (suc m)) 2 ≡ m = omega arith in
    rw
      (
        last_eq,
        mid_eq,
        take-range_from (s + 1) m,
        take-range_from_self (s + 1) m,
        range_from-snoc (s + 1) m,
      )
      (Perm.cons s (Perm.symm (perm_tail (range_from (s + 1) m) (s + 1 + m))))

-- For a range whose ends have 64 bits, `iter_piece_priorities` lists the numbers of the range, each
-- once, in some order.
pub iter_piece_priorities-perm :
    (r : Range)
    → r.start < u64_mod
    → r.end < u64_mod
    → Perm (iter_piece_priorities r) (range_list r)
unfolding iter_piece_priorities order_from
iter_piece_priorities-perm r hs he = order_from-perm r.start (r.end - r.start) (omega arith)

order_from-member :
    (s n j : ℕ) → s + n < u64_mod → member j (order_from s n) ≡ true → (s ≤ j) × (j < s + n)
unfolding order_from
order_from-member s zero j h m = cc
order_from-member s (suc zero) j h m = ground arith
order_from-member s (suc (suc k)) j h m =
    let last_eq : add_u64 s (sub_u64 (suc (suc k)) 1) ≡ s + 1 + k = omega arith in
    let mid_eq : sub_u64 (suc (suc k)) 2 ≡ k = omega arith in
    let whole =
      rw (last_eq, mid_eq, take-range_from (s + 1) k, take-range_from_self (s + 1) k) at m in
    ground (arith, member-range_from j (s + 1) k)

-- `iter_piece_priorities` stays in its range.
pub iter_piece_priorities-member :
    (r : Range) (j : ℕ)
    → r.start + (r.end - r.start) < u64_mod
    → member j (iter_piece_priorities r) ≡ true
    → (r.start ≤ j) × (j < r.start + (r.end - r.start))
unfolding iter_piece_priorities order_from
iter_piece_priorities-member r j h m = order_from-member r.start (r.end - r.start) j h m

member-order_from :
    (s n j : ℕ) → s + n < u64_mod → s ≤ j → j < s + n → member j (order_from s n) ≡ true
unfolding order_from
member-order_from s zero j h low high = absurd (omega arith)
member-order_from s (suc zero) j h low high = ground arith
member-order_from s (suc (suc k)) j h low high =
    let last_eq : add_u64 s (sub_u64 (suc (suc k)) 1) ≡ s + 1 + k = omega arith in
    let mid_eq : sub_u64 (suc (suc k)) 2 ≡ k = omega arith in
    rw (last_eq, mid_eq, take-range_from (s + 1) k, take-range_from_self (s + 1) k)
      (ground (arith, member-range_from j (s + 1) k))

-- `iter_piece_priorities` leaves nothing of its range out.
pub member-iter_piece_priorities :
    (r : Range) (j : ℕ)
    → r.start + (r.end - r.start) < u64_mod
    → r.start ≤ j
    → j < r.end
    → member j (iter_piece_priorities r) ≡ true
unfolding iter_piece_priorities order_from
member-iter_piece_priorities r j h low high =
    member-order_from r.start (r.end - r.start) j h low (omega arith)
