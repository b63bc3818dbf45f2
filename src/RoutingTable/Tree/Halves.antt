-- ===== src/RoutingTable/Tree/Halves.antt =====
-- The two halves of the range of a leaf.
use native.Mathlib.Nat.{two-pow-succ, mul-add-div, div-eq_of_lt}
use rust_torrent.Prelude.{
  ℕ, zero, suc, ◌+◌, ◌-◌, ◌*◌, ◌/◌, ◌%◌, ◌^◌, ◌≤◌, ◌<◌, ◌≡◌, ◌∙◌, ap, true, false, some, ltb, leb,
  ◌==◌, arith,
}
use rust_torrent.RoutingTable.{set_bit, compute_split_start_end}

pub pow_two_suc : (k : ℕ) → 2 ^ suc k ≡ 2 ^ k + 2 ^ k
pow_two_suc k = two-pow-succ k

pub pow_two_pos : (k : ℕ) → 0 < 2 ^ k
pow_two_pos zero = omega arith
pow_two_pos (suc k) = omega (arith, pow_two_pos k, pow_two_suc k)

quotient_in : (w m r : ℕ) → r < w → (w * m + r) / w ≡ m
quotient_in w m r h =
    mul-add-div (omega arith) m r ∙ ap (λ (x : ℕ). m + x) (div-eq_of_lt h) ∙ omega arith

-- The bit of weight `2 ^ k` of the start and of the end of a range of `2 ^ (k + 1)` numbers.
start_bit : (w q : ℕ) → 0 < w → ((w + w) * q / w % 2 == 1) ≡ false
start_bit w q pos =
    let e : (w + w) * q ≡ w * (2 * q) + 0 = grind arith in
    let d : (w + w) * q / w ≡ 2 * q = ap (λ (x : ℕ). x / w) e ∙ quotient_in w (2 * q) 0 pos in
    rw d (ground arith)

end_bit : (w q r : ℕ) → 0 < w → r + 1 ≡ (w + w) * q + (w + w) → (r / w % 2 == 1) ≡ true
end_bit w q r pos h =
    let e : r ≡ w * (2 * q + 1) + (w - 1) = grind arith in
    let d : r / w ≡ 2 * q + 1 =
      ap (λ (x : ℕ). x / w) e ∙ quotient_in w (2 * q + 1) (w - 1) (omega (arith, pos)) in
    rw d (ground arith)

-- With four ids or more, the two halves are as the assertions want them.
pub compute_split_start_end_lem :
    (j q start end_inclusive : ℕ)
    → suc (suc j) ≤ 160
    → start ≡ 2 ^ suc (suc j) * q
    → end_inclusive + 1 ≡ start + 2 ^ suc (suc j)
    → compute_split_start_end start end_inclusive (suc (suc j))
      ≡ some ((start, end_inclusive - 2 ^ suc j), (start + 2 ^ suc j, end_inclusive))
unfolding compute_split_start_end set_bit
compute_split_start_end_lem j q start end_inclusive few aligned last =
    let index : 159 - (160 - suc (suc j)) ≡ suc j = omega (arith, few) in
    let in_bounds : leb 160 (160 - suc (suc j)) ≡ false = ground arith in
    let double = pow_two_suc (suc j) in
    let quarter = pow_two_suc j in
    let pos = pow_two_pos j in
    let s : (start / 2 ^ suc j % 2 == 1) ≡ false =
      ap (λ (x : ℕ). x / 2 ^ suc j % 2 == 1) (aligned ∙ ap (λ (x : ℕ). x * q) double)
      ∙ start_bit (2 ^ suc j) q (omega arith) in
    let e : (end_inclusive / 2 ^ suc j % 2 == 1) ≡ true =
      end_bit (2 ^ suc j) q end_inclusive (omega arith) (
        last
        ∙ ap (λ (x : ℕ). x + 2 ^ suc (suc j)) (aligned ∙ ap (λ (x : ℕ). x * q) double)
        ∙ ap (λ (x : ℕ). (2 ^ suc j + 2 ^ suc j) * q + x) double) in
    let a : ltb start (end_inclusive - 2 ^ suc j) ≡ true = ground arith in
    let b : ltb (end_inclusive - 2 ^ suc j) (start + 2 ^ suc j) ≡ true = ground arith in
    let c : ltb (start + 2 ^ suc j) end_inclusive ≡ true = ground arith in
    rw (index, in_bounds, s, e, a, b, c)
