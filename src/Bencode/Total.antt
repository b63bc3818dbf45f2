-- ===== src/Bencode/Total.antt =====
-- The reader comes to an end: the fuel is enough for every buffer.
use rust_torrent.Prelude.{
  length-drop, ℕ, zero, suc, ◌⊎◌, ◌+◌, ◌*◌, ◌≤◌, ◌<◌, ◌≡◌, refl, Bool, true, false, Bool-cases, inl,
  inr, ◌&&◌, List, [], ◌∷◌, length, drop, ltb, ◌==◌, arith,
}
use rust_torrent.Bencode.{
  BencodeValue, bytes, integer, list, dict, value, Entries, no_entries, put_entry, Error, Atoi,
  byte_is, Kind, kind, map_kind, integer_kind, seq_kind, bytes_kind, parse_bytes, parse_number,
  parse_integer, parse_value, parse_values, parse_entries, fuel_for, from_bytes_with_rest,
}
use rust_torrent.Prelude.Results.{Result, ok, err, out_of_fuel, ◌>>=◌}

-- The fuel was enough, and what is left is shorter than `n` bytes.
abbrev Less {ℓ} : {A : Type ℓ} → ℕ → Result Error (A × List ℕ) → Type 0
Less n (ok (a, rest)) = length rest < n
Less n (err e) = Unit
Less n out_of_fuel = ⊥

bind-Less {ℓ κ} :
    {A : Type ℓ} {B : Type κ} (m n : ℕ) (r : Result Error (A × List ℕ))
    (f : A × List ℕ → Result Error (B × List ℕ))
    → Less m r
    → ((a : A) (rest : List ℕ) → length rest < m → Less n (f (a, rest)))
    → Less n (r >>= f)
bind-Less m n (ok (a, rest)) f l g = g a rest l
bind-Less m n (err e) f l g = tt
bind-Less m n out_of_fuel f l g = absurd l

weaken-Less {ℓ} :
    {A : Type ℓ} (m n : ℕ) (r : Result Error (A × List ℕ)) → m ≤ n → Less m r → Less n r
weaken-Less m n (ok (a, rest)) h l = omega (arith, l)
weaken-Less m n (err e) h l = tt
weaken-Less m n out_of_fuel h l = l

outcome {ℓ} :
    {A : Type ℓ} (n : ℕ) (r : Result Error (A × List ℕ))
    → Less n r
    → ((a : A) × (rest : List ℕ) × (r ≡ ok (a, rest)) × (length rest < n))
      ⊎ ((e : Error) × (r ≡ err e))
outcome n (ok (a, rest)) l = inl (a, rest, refl, l)
outcome n (err e) l = inr (e, refl)
outcome n out_of_fuel l = absurd l

kind-cases :
    (k : Kind) → (k ≡ map_kind) ⊎ ((k ≡ integer_kind) ⊎ ((k ≡ seq_kind) ⊎ (k ≡ bytes_kind)))
kind-cases map_kind = inl refl
kind-cases integer_kind = inr (inl refl)
kind-cases seq_kind = inr (inr (inl refl))
kind-cases bytes_kind = inr (inr (inr refl))

byte_is-drop :
    (buf : List ℕ) (i c : ℕ) → byte_is buf i c ≡ true → length (drop (i + 1) buf) < length buf
byte_is-drop [] i c h = cc
byte_is-drop (b ∷ bs) zero c h = omega arith
byte_is-drop (b ∷ bs) (suc i) c h =
    let one_more : suc i + 1 ≡ suc (i + 1) = omega arith in
    rw one_more (omega (arith, byte_is-drop bs i c h))

both : (a b : Bool) → a && b ≡ true → b ≡ true
both true b h = h
both false b h = cc

module _ (atoi : Atoi) where
  parse_bytes-Less : (buf : List ℕ) → Less (length buf) (parse_bytes atoi buf)
  unfolding parse_bytes
  parse_bytes-Less buf =
      let (v, len) = atoi.from_radix_10 buf in
      let rest = drop (len + 1) buf in
      elim (Bool-cases (ltb 0 len && byte_is buf len 58)) [
        | inl t ↦
            let shorter = byte_is-drop buf len 58 (both (ltb 0 len) (byte_is buf len 58) t) in
            elim (Bool-cases (ltb (length rest) v)) [
              | inl few ↦ rw (t, few) tt
              | inr enough ↦ rw (t, enough) (omega (arith, shorter, length-drop v rest))
            ]
        | inr f ↦ rw f tt
      ]

  parse_number-Less : (buf : List ℕ) → Less (length buf) (parse_number atoi buf)
  unfolding parse_number
  parse_number-Less buf =
      let (v, len) = atoi.from_radix_10_signed buf in
      elim (Bool-cases (ltb 0 len && byte_is buf len 101)) [
        | inl t ↦ rw t (byte_is-drop buf len 101 (both (ltb 0 len) (byte_is buf len 101) t))
        | inr f ↦ rw f tt
      ]

  parse_integer-Less : (buf : List ℕ) → Less (length buf) (parse_integer atoi buf)
  unfolding parse_integer
  parse_integer-Less [] = tt
  parse_integer-Less (c ∷ cs) = elim (Bool-cases (c == 105)) [
    | inl t ↦ rw t (
        weaken-Less (length cs) (suc (length cs)) (parse_number atoi cs) (omega arith)
          (parse_number-Less cs))
    | inr f ↦ rw f tt
  ]

  mutual
    unfolding parse_value

    parse_value-Less :
        (fuel : ℕ) (buf : List ℕ)
        → length buf * 2 + 1 ≤ fuel
        → Less (length buf) (parse_value atoi fuel buf)
    parse_value-Less zero buf h = absurd (omega arith)
    parse_value-Less (suc fuel) [] h = tt
    parse_value-Less (suc fuel) (c ∷ cs) h = elim (kind-cases (kind c)) [
      | inl e ↦
          rw (parse_value, e)
            (bind-Less (length cs) (suc (length cs)) (parse_entries atoi fuel no_entries cs)
              (λ (d, rest). ok (dict d, rest))
              (parse_entries-Less fuel no_entries cs (omega (arith, h)))
              (λ d rest l. omega (arith, l)))
      | inr (inl e) ↦
          rw (parse_value, e)
            (bind-Less (suc (length cs)) (suc (length cs)) (parse_integer atoi (c ∷ cs))
              (λ (v, rest). ok (integer v, rest)) (parse_integer-Less (c ∷ cs)) (λ v rest l. l))
      | inr (inr (inl e)) ↦
          rw (parse_value, e)
            (bind-Less (length cs) (suc (length cs)) (parse_values atoi fuel cs)
              (λ (l, rest). ok (list l, rest)) (parse_values-Less fuel cs (omega (arith, h)))
              (λ d rest l. omega (arith, l)))
      | inr (inr (inr e)) ↦
          rw (parse_value, e)
            (bind-Less (suc (length cs)) (suc (length cs)) (parse_bytes atoi (c ∷ cs))
              (λ (b, rest). ok (bytes b, rest)) (parse_bytes-Less (c ∷ cs)) (λ v rest l. l))
    ]

    parse_values-Less :
        (fuel : ℕ) (buf : List ℕ)
        → length buf * 2 + 2 ≤ fuel
        → Less (length buf) (parse_values atoi fuel buf)
    parse_values-Less zero buf h = absurd (omega arith)
    parse_values-Less (suc fuel) buf h = elim (Bool-cases (byte_is buf 0 101)) [
      | inl t ↦ rw (parse_values, t) (byte_is-drop buf 0 101 t)
      | inr f ↦
          rw (parse_values, f)
            (bind-Less (length buf) (length buf) (parse_value atoi fuel buf)
              (λ (v, rest). parse_values atoi fuel rest >>= λ (vs, rest'). ok (value v vs, rest'))
              (parse_value-Less fuel buf (omega (arith, h)))
              (λ v rest l.
                bind-Less (length rest) (length buf) (parse_values atoi fuel rest)
                  (λ (vs, rest'). ok (value v vs, rest'))
                  (parse_values-Less fuel rest (omega (arith, h, l)))
                  (λ vs rest' l'. omega (arith, l, l'))))
    ]

    parse_entries-Less :
        (fuel : ℕ) (hmap : Entries) (buf : List ℕ)
        → length buf * 2 + 2 ≤ fuel
        → Less (length buf) (parse_entries atoi fuel hmap buf)
    parse_entries-Less zero hmap buf h = absurd (omega arith)
    parse_entries-Less (suc fuel) hmap buf h = elim (Bool-cases (byte_is buf 0 101)) [
      | inl t ↦ rw (parse_entries, t) (byte_is-drop buf 0 101 t)
      | inr f ↦
          rw (parse_entries, f)
            (bind-Less (length buf) (length buf) (parse_bytes atoi buf)
              (λ (k, rest). parse_value atoi fuel rest >>= λ (v, rest').
                parse_entries atoi fuel (put_entry k v hmap) rest')
              (parse_bytes-Less buf)
              (λ k rest l.
                bind-Less (length rest) (length buf) (parse_value atoi fuel rest)
                  (λ (v, rest'). parse_entries atoi fuel (put_entry k v hmap) rest')
                  (parse_value-Less fuel rest (omega (arith, h, l)))
                  (λ v rest' l'.
                    weaken-Less (length rest') (length buf)
                      (parse_entries atoi fuel (put_entry k v hmap) rest') (omega (arith, l, l'))
                      (parse_entries-Less fuel (put_entry k v hmap) rest'
                        (omega (arith, h, l, l'))))))
    ]

  -- For any buffer and any reader of decimal numbers that satisfies the interface Atoi, the model
  -- of `from_bytes_with_rest` does not run out of fuel, which is two calls for each byte and one
  -- more: it returns a value and a rest that is shorter than the buffer, or an error. The stack
  -- that the recursion of the program needs is not bounded by this.
  pub from_bytes_with_rest-total :
      (buf : List ℕ)
      → ((v : BencodeValue) × (rest : List ℕ) × (from_bytes_with_rest atoi buf ≡ ok (v, rest))
          × (length rest < length buf))
        ⊎ ((e : Error) × (from_bytes_with_rest atoi buf ≡ err e))
  unfolding from_bytes_with_rest
  from_bytes_with_rest-total buf =
      outcome (length buf) (from_bytes_with_rest atoi buf)
        (parse_value-Less (fuel_for buf) buf (omega arith))
