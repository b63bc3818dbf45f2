-- ===== src/Bencode/Decimal.antt =====
-- Decimal numbers, and a reader of them that does what is asked of the crate atoi.
use native.Mathlib.Nat.{div-add-mod'}
use rust_torrent.Prelude.{
  ℕ, zero, suc, ◌+◌, ◌-◌, ◌*◌, ◌/◌, ◌%◌, ◌≤◌, ◌<◌, ◌≡◌, refl, ◌∙◌, ap, true, false, Bool-cases, inl,
  inr, List, [], ◌∷◌, ◌++◌, length, length-append, ltb, ◌==◌, if◌then◌else◌, arith,
}
use mathlib.Core.List.{append_assoc}
use rust_torrent.Bencode.{decimal_from, decimal, decimal_signed, is_digit, Atoi}
use rust_torrent.Integers.{ℤ, pos, negsuc}

tenth-lt : (n : ℕ) → 10 ≤ n → n / 10 < n
tenth-lt n h = omega (arith, div-add-mod' n 10)

-- The first byte is a digit.
pub decimal_from-head :
    (fuel n : ℕ)
    → n < fuel
    → (c : ℕ) × (cs : List ℕ) × (decimal_from fuel n ≡ c ∷ cs) × (is_digit c ≡ true)
unfolding decimal_from
decimal_from-head zero n h = absurd (omega arith)
decimal_from-head (suc fuel) n h = elim (Bool-cases (ltb n 10)) [
  | inl small ↦ (48 + n, [], rw small refl, ground (arith, small))
  | inr large ↦
      let (c, cs, eq, digit) =
        decimal_from-head fuel (n / 10) (ground (arith, large, h, tenth-lt n)) in
      (c, cs ++ ((48 + n % 10) ∷ []), rw (large, eq) refl, digit)
]

-- Reading the digits at the front.
abbrev pub scan : ℕ → ℕ → List ℕ → ℕ × ℕ
scan acc count [] = (acc, count)
scan acc count (c ∷ cs) =
    if is_digit c then scan (acc * 10 + (c - 48)) (count + 1) cs else (acc, count)

scan-digit :
    (acc count d : ℕ) (cs : List ℕ)
    → d < 10
    → scan acc count ((48 + d) ∷ cs) ≡ scan (acc * 10 + d) (count + 1) cs
scan-digit acc count d cs h =
    let digit : is_digit (48 + d) ≡ true = ground (arith, h) in
    let value : 48 + d - 48 ≡ d = omega arith in rw (digit, value) refl

scan-decimal_from :
    (fuel n : ℕ) (cs : List ℕ)
    → n < fuel
    → scan 0 0 (decimal_from fuel n ++ cs) ≡ scan n (length (decimal_from fuel n)) cs
unfolding decimal_from
scan-decimal_from zero n cs h = absurd (omega arith)
scan-decimal_from (suc fuel) n cs h = elim (Bool-cases (ltb n 10)) [
  | inl small ↦ rw small (scan-digit 0 0 n cs (ground (arith, small)) ∙ same n cs)
  | inr large ↦
      let less : n / 10 < fuel = ground (arith, large, h, tenth-lt n) in
      let higher = decimal_from fuel (n / 10) in
      let d = n % 10 in
      let small : d < 10 = omega arith in
      let back : n / 10 * 10 + d ≡ n = div-add-mod' n 10 in
      let len : length (higher ++ ((48 + d) ∷ [])) ≡ length higher + 1 =
        length-append higher ((48 + d) ∷ []) in
      rw (large, append_assoc higher ((48 + d) ∷ []) cs, len)
        (scan-decimal_from fuel (n / 10) ((48 + d) ∷ cs) less
          ∙ scan-digit (n / 10) (length higher) d cs small
          ∙ ap (λ (x : ℕ). scan x (length higher + 1) cs) back)
]
  where
    same : (n : ℕ) (cs : List ℕ) → scan (0 * 10 + n) (0 + 1) cs ≡ scan n 1 cs
    same n cs = let a : 0 * 10 + n ≡ n = omega arith in rw a refl

scan-stop :
    (acc count c : ℕ) (cs : List ℕ) → is_digit c ≡ false → scan acc count (c ∷ cs) ≡ (acc, count)
scan-stop acc count c cs h = rw h refl

abbrev scan_signed : List ℕ → ℤ × ℕ
scan_signed [] = (pos 0, 0)
scan_signed (c ∷ cs) =
    if c == 45
    then (let (n, count) = scan 0 0 cs in
        (elim n [ zero ↦ pos 0 | suc k ↦ negsuc k ], if count == 0 then 0 else count + 1))
    else (let (n, count) = scan 0 0 (c ∷ cs) in (pos n, count))

pub decimal_from-positive : (fuel n : ℕ) → n < fuel → 0 < length (decimal_from fuel n)
decimal_from-positive fuel n h =
    let (c, cs, eq, digit) = decimal_from-head fuel n h in
    let len : length (decimal_from fuel n) ≡ suc (length cs) = ap (λ (l : List ℕ). length l) eq in
    omega (arith, len)

scan_reads :
    (n c : ℕ) (rest : List ℕ)
    → is_digit c ≡ false
    → scan 0 0 (decimal n ++ (c ∷ rest)) ≡ (n, length (decimal n))
scan_reads n c rest h =
    scan-decimal_from (suc n) n (c ∷ rest) (omega arith) ∙ scan-stop n (length (decimal n)) c rest h

scan_reads_signed :
    (z : ℤ) (c : ℕ) (rest : List ℕ)
    → is_digit c ≡ false
    → scan_signed (decimal_signed z ++ (c ∷ rest)) ≡ (z, length (decimal_signed z))
scan_reads_signed (pos n) c rest h =
    let (d, ds, eq, digit) = decimal_from-head (suc n) n (omega arith) in
    let no_minus : (d == 45) ≡ false = ground (arith, digit) in
    let back = scan_reads n c rest h in
    rw (eq, no_minus) (ap (λ (r : ℕ × ℕ). (pos r.0, r.1)) (rw eq at back))
scan_reads_signed (negsuc n) c rest h =
    let positive = decimal_from-positive (suc (suc n)) (suc n) (omega arith) in
    let some_digits : (length (decimal (suc n)) == 0) ≡ false = ground (arith, positive) in
    let one_more : length (decimal (suc n)) + 1 ≡ suc (length (decimal (suc n))) = omega arith in
    rw (scan_reads (suc n) c rest h, some_digits, one_more) refl

-- The number and its length in bytes, of no sign but the minus.
pub digits : Atoi
digits = record {
  from_radix_10 = scan 0 0;
  from_radix_10_signed = scan_signed;
  reads = λ n small c rest h. scan_reads n c rest h;
  reads_signed = λ z small c rest h. scan_reads_signed z c rest h;
}
