-- ===== src/DoubleBuf/Flat.antt =====
-- The two slices as one: what each operation does to the bytes that they hold together.
use rust_torrent.Prelude.{
  ℕ, zero, suc, ◌+◌, ◌-◌, min, ◌≤◌, ◌<◌, ◌⊎◌, ◌≡◌, refl, sym, ◌∙◌, ap, true, false, Bool-cases, inl,
  inr, ◌&&◌, none, some, List, [], ◌∷◌, ◌++◌, length, length-append, take, drop, ltb, leb, ◌==◌,
  arith,
}
use mathlib.Core.List.{append-nil}
use rust_torrent.DoubleBuf.{
  DoubleBuf, Read, done, missing, consume, consume_across, consume_variable, read_u8, advance,
  with_max_len, get_contiguous, len,
}

abbrev pub flat : DoubleBuf → List ℕ
flat b = b.buf_0 ++ b.buf_1

pub take-all : (xs : List ℕ) → take (length xs) xs ≡ xs
take-all [] = refl
take-all (x ∷ xs) = ap (λ (t : List ℕ). x ∷ t) (take-all xs)

pub drop-all : (xs : List ℕ) → drop (length xs) xs ≡ []
drop-all [] = refl
drop-all (x ∷ xs) = drop-all xs

take-past : (n : ℕ) (xs : List ℕ) → take (min n (length xs)) xs ≡ take n xs
take-past zero xs = let a : min 0 (length xs) ≡ 0 = omega arith in rw a
take-past (suc n) [] = let a : min (suc n) 0 ≡ 0 = omega arith in rw a
take-past (suc n) (x ∷ xs) =
    let e : min (suc n) (suc (length xs)) ≡ suc (min n (length xs)) = omega arith in
    rw e (ap (λ (t : List ℕ). x ∷ t) (take-past n xs))

drop-past : (n : ℕ) (xs : List ℕ) → drop (min n (length xs)) xs ≡ drop n xs
drop-past zero xs = let a : min 0 (length xs) ≡ 0 = omega arith in rw a
drop-past (suc n) [] = let a : min (suc n) 0 ≡ 0 = omega arith in rw a
drop-past (suc n) (x ∷ xs) =
    let e : min (suc n) (suc (length xs)) ≡ suc (min n (length xs)) = omega arith in
    rw e (drop-past n xs)

-- A part of two lists, in one of them or across both.
pub take-append :
    (n : ℕ) (xs ys : List ℕ)
    → take (min (length xs) n) xs ++ take (min (n - min (length xs) n) (length ys)) ys
      ≡ take n (xs ++ ys)
take-append n [] ys =
    let a : min 0 n ≡ 0 = omega arith in
    let b : n - 0 ≡ n = omega arith in rw (a, b) (take-past n ys)
take-append zero (x ∷ xs) ys =
    let a : min (suc (length xs)) 0 ≡ 0 = omega arith in
    let b : min (0 - 0) (length ys) ≡ 0 = omega arith in rw (a, b)
take-append (suc n) (x ∷ xs) ys =
    let a : min (suc (length xs)) (suc n) ≡ suc (min (length xs) n) = omega arith in
    let b : suc n - suc (min (length xs) n) ≡ n - min (length xs) n = omega arith in
    rw (a, b) (ap (λ (t : List ℕ). x ∷ t) (take-append n xs ys))

pub drop-append :
    (n : ℕ) (xs ys : List ℕ)
    → drop (min (length xs) n) xs ++ drop (min (n - min (length xs) n) (length ys)) ys
      ≡ drop n (xs ++ ys)
drop-append n [] ys =
    let a : min 0 n ≡ 0 = omega arith in
    let b : n - 0 ≡ n = omega arith in rw (a, b) (drop-past n ys)
drop-append zero (x ∷ xs) ys =
    let a : min (suc (length xs)) 0 ≡ 0 = omega arith in
    let b : min (0 - 0) (length ys) ≡ 0 = omega arith in rw (a, b)
drop-append (suc n) (x ∷ xs) ys =
    let a : min (suc (length xs)) (suc n) ≡ suc (min (length xs) n) = omega arith in
    let b : suc n - suc (min (length xs) n) ≡ n - min (length xs) n = omega arith in
    rw (a, b) (drop-append n xs ys)

-- Reading `n` bytes with `op`.
pub record Reads (n : ℕ) (b : DoubleBuf) (r : Read (List ℕ)) : Type 0 where
  pub reads :
      n ≤ length (flat b)
      → (b' : DoubleBuf) × (r ≡ done (take n (flat b)) b') × (flat b' ≡ drop n (flat b))
  pub lacks : length (flat b) < n → r ≡ missing (n - length (flat b))

consume_across-Reads : (n : ℕ) (b : DoubleBuf) → Reads n b (consume_across n b)
unfolding consume_across
consume_across-Reads n b =
    let total = length-append b.buf_0 b.buf_1 in
    let a : min (n - min (length b.buf_0) n) (length b.buf_1)
        ≡ min (length b.buf_1) (n - min (length b.buf_0) n) =
      omega arith in
    record {
      reads = λ h.
          let enough : ltb 0
                (n - min (length b.buf_0) n - min (length b.buf_1) (n - min (length b.buf_0) n))
              ≡ false =
            ground (arith, total) in
          (
            record {
              buf_0 = drop (min (length b.buf_0) n) b.buf_0;
              buf_1 = drop (min (length b.buf_1) (n - min (length b.buf_0) n)) b.buf_1;
            },
            rw (enough, ← a, take-append n b.buf_0 b.buf_1),
            rw (← a) (drop-append n b.buf_0 b.buf_1),
          );
      lacks = λ h. ground (arith, total);
    }

pub reads_front :
    (n : ℕ) (b : DoubleBuf)
    → n ≤ length b.buf_0
    → (take n b.buf_0 ≡ take n (flat b)) × (drop n b.buf_0 ++ b.buf_1 ≡ drop n (flat b))
reads_front n b h =
    let e : min (length b.buf_0) n ≡ n = omega arith in
    let z : min (n - n) (length b.buf_1) ≡ 0 = omega arith in
    (
      sym (append-nil (take n b.buf_0)) ∙ (rw (e, z) at (take-append n b.buf_0 b.buf_1)),
      rw (e, z) at (drop-append n b.buf_0 b.buf_1),
    )

flat_back : (b : DoubleBuf) → (length b.buf_0 == 0) ≡ true → b.buf_0 ≡ []
flat_back b h = no_bytes b.buf_0 h
  where
    no_bytes : (xs : List ℕ) → (length xs == 0) ≡ true → xs ≡ []
    no_bytes [] h = refl
    no_bytes (x ∷ xs) h = ground arith

-- `consume` reads as from one slice.
pub consume-Reads : (n : ℕ) (b : DoubleBuf) → Reads n b (consume n b)
unfolding consume
consume-Reads n b = elim (Bool-cases (leb n (length b.buf_0))) [
  | inl front ↦
      let (t, d) = reads_front n b (ground arith) in
      rw front (record {
        reads = λ h. (record b { buf_0 = drop n b.buf_0 }, rw t, d);
        lacks = λ h. ground (arith, length-append b.buf_0 b.buf_1);
      })
  | inr f ↦ elim (Bool-cases (length b.buf_0 == 0 && leb n (length b.buf_1))) [
    | inl back ↦
        let e = flat_back b (ground arith) in
        rw (f, back)
          (record {
            reads = λ h. (record b { buf_1 = drop n b.buf_1 }, rw e, rw e);
            lacks = λ h. ground (arith, length-append b.buf_0 b.buf_1);
          })
    | inr across ↦ rw (f, across) (consume_across-Reads n b)
  ]
]

pub consume_variable-done :
    (n : ℕ) (b : DoubleBuf)
    → n ≤ length (flat b)
    → (parts : List ℕ × List ℕ) × (b' : DoubleBuf) × (consume_variable n b ≡ done parts b')
      × (parts.0 ++ parts.1 ≡ take n (flat b))
      × (flat b' ≡ drop n (flat b))
unfolding consume_variable
consume_variable-done n b h =
    let enough : ltb (length b.buf_0 + length b.buf_1) n ≡ false =
      ground (arith, length-append b.buf_0 b.buf_1) in
    (
      (
        take (min (length b.buf_0) n) b.buf_0,
        take (min (n - min (length b.buf_0) n) (length b.buf_1)) b.buf_1,
      ),
      record {
        buf_0 = drop (min (length b.buf_0) n) b.buf_0;
        buf_1 = drop (min (n - min (length b.buf_0) n) (length b.buf_1)) b.buf_1;
      },
      rw (consume_variable, enough),
      take-append n b.buf_0 b.buf_1,
      drop-append n b.buf_0 b.buf_1,
    )

pub consume_variable-missing :
    (n : ℕ) (b : DoubleBuf)
    → length (flat b) < n
    → consume_variable n b ≡ missing (n - length (flat b))
unfolding consume_variable
consume_variable-missing n b h = ground (arith, length-append b.buf_0 b.buf_1)

pub read_u8-some :
    (b : DoubleBuf) {v : ℕ} {rest : List ℕ}
    → flat b ≡ v ∷ rest
    → (b' : DoubleBuf) × (read_u8 b ≡ some (v, b')) × (flat b' ≡ rest)
unfolding read_u8
read_u8-some b {v} {rest} e = by_parts b.buf_0 b.buf_1 e
  where
    by_parts :
        (xs ys : List ℕ)
        → xs ++ ys ≡ v ∷ rest
        → (b' : DoubleBuf) × (read_u8 (record { buf_0 = xs; buf_1 = ys }) ≡ some (v, b'))
          × (flat b' ≡ rest)
    by_parts [] [] e = cc
    by_parts [] (y ∷ ys) e = (record { buf_0 = []; buf_1 = ys }, cc, cc)
    by_parts (x ∷ xs) ys e = (record { buf_0 = xs; buf_1 = ys }, cc, cc)

pub read_u8-none : (b : DoubleBuf) → flat b ≡ [] → read_u8 b ≡ none
unfolding read_u8
read_u8-none b e = by_parts b.buf_0 b.buf_1 e
  where
    by_parts : (xs ys : List ℕ) → xs ++ ys ≡ [] → read_u8 (record { buf_0 = xs; buf_1 = ys }) ≡ none
    by_parts [] [] e = refl
    by_parts [] (y ∷ ys) e = cc
    by_parts (x ∷ xs) ys e = cc

pub flat-advance : (n : ℕ) (b : DoubleBuf) → flat (advance n b) ≡ drop n (flat b)
unfolding advance
flat-advance n b = drop-append n b.buf_0 b.buf_1

pub flat-with_max_len : (n : ℕ) (b : DoubleBuf) → flat (with_max_len n b) ≡ take n (flat b)
unfolding with_max_len
flat-with_max_len n b = take-append n b.buf_0 b.buf_1

pub len-flat : (b : DoubleBuf) → len b ≡ length (flat b)
unfolding len
len-flat b = sym (length-append b.buf_0 b.buf_1)

pub get_contiguous-cases :
    (n : ℕ) (b : DoubleBuf)
    → (get_contiguous n b ≡ none) ⊎ (get_contiguous n b ≡ some (take n (flat b)))
unfolding get_contiguous
get_contiguous-cases n b = elim (Bool-cases (leb n (length b.buf_0))) [
  | inl front ↦ inr (rw front (ap (λ (t : List ℕ). some t) (reads_front n b (ground arith)).0))
  | inr f ↦ elim (Bool-cases (length b.buf_0 == 0 && leb n (length b.buf_1))) [
    | inl back ↦ inr (rw (f, back) (rw (flat_back b (ground arith))))
    | inr across ↦ inl (rw (f, across))
  ]
]
