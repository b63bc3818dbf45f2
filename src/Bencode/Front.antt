-- ===== src/Bencode/Front.antt =====
-- Byte strings and numbers are read back, and what the first byte of a value is.
use mathlib.Core.List.{append_assoc}
use rust_torrent.Prelude.{
  ℕ, suc, ◌+◌, ◌^◌, ◌<◌, ◌≡◌, refl, true, false, List, [], ◌∷◌, ◌++◌, length, length-append, drop,
  ltb, ◌==◌, arith,
}
use rust_torrent.Bytes.{front_at, back_at}
use rust_torrent.Bencode.{
  BencodeValue, bytes, integer, list, dict, Values, no_values, value, Entries, no_entries, entry,
  decimal, decimal_signed, write_number, write_bytes, serialize_value, is_digit, InI64, Atoi,
  byte_is, kind, bytes_kind, parse_bytes, parse_number,
}
use rust_torrent.Prelude.Results.{ok}
use rust_torrent.Integers.{ℤ, pos, negsuc}
use rust_torrent.Bencode.Decimal.{decimal_from-head, decimal_from-positive}
use rust_torrent.Bencode.Distinct.{Distinct}

-- A value that exists in memory: the lengths and numbers have 64 bits, and a map has no key twice.
unfoldable mutual
  pub Fits : BencodeValue → Type 0
  Fits (bytes b) = length b < 2 ^ 64
  Fits (integer z) = InI64 z
  Fits (list l) = FitsValues l
  Fits (dict d) = FitsEntries d × Distinct d

  pub FitsValues : Values → Type 0
  FitsValues no_values = Unit
  FitsValues (value v vs) = Fits v × FitsValues vs

  pub FitsEntries : Entries → Type 0
  FitsEntries no_entries = Unit
  FitsEntries (entry k v es) = (length k < 2 ^ 64) × Fits v × FitsEntries es

byte_is_at : (xs ys : List ℕ) (c : ℕ) → byte_is (xs ++ (c ∷ ys)) (length xs) c ≡ true
byte_is_at [] ys c = ground arith
byte_is_at (x ∷ xs) ys c = byte_is_at xs ys c

drop_behind : (xs ys : List ℕ) (c : ℕ) → drop (length xs + 1) (xs ++ (c ∷ ys)) ≡ ys
drop_behind [] ys c = refl
drop_behind (x ∷ xs) ys c =
    let one_more : suc (length xs) + 1 ≡ suc (length xs + 1) = omega arith in
    rw one_more (drop_behind xs ys c)

module _ (atoi : Atoi) where
  pub parse_bytes-back :
      (b rest : List ℕ)
      → length b < 2 ^ 64
      → parse_bytes atoi (write_bytes b ++ rest) ≡ ok (b, rest)
  unfolding parse_bytes write_bytes
  parse_bytes-back b rest h =
      let ds = decimal (length b) in
      let shape = append_assoc ds (58 ∷ b) rest in
      let positive = decimal_from-positive (suc (length b)) (length b) (omega arith) in
      let some_digits : ltb 0 (length ds) ≡ true = ground (arith, positive) in
      let enough : ltb (length (b ++ rest)) (length b) ≡ false =
        ground (arith, length-append b rest) in
      rw
        (
          parse_bytes,
          shape,
          atoi.reads (length b) h 58 (b ++ rest) refl,
          some_digits,
          byte_is_at ds (b ++ rest) 58,
          drop_behind ds (b ++ rest) 58,
          enough,
          front_at b rest refl,
          back_at b rest refl,
        )
        refl

  pub parse_number-back :
      (z : ℤ) (rest : List ℕ)
      → InI64 z
      → parse_number atoi ((decimal_signed z ++ (101 ∷ [])) ++ rest) ≡ ok (z, rest)
  unfolding parse_number
  parse_number-back z rest h =
      let ds = decimal_signed z in
      let shape = append_assoc ds (101 ∷ []) rest in
      let some_digits : ltb 0 (length ds) ≡ true = ground (arith, signed-positive z) in
      rw
        (
          parse_number,
          shape,
          atoi.reads_signed z h 101 rest refl,
          some_digits,
          byte_is_at ds rest 101,
          drop_behind ds rest 101,
        )
        refl
    where
      signed-positive : (z : ℤ) → 0 < length (decimal_signed z)
      signed-positive (pos n) = decimal_from-positive (suc n) n (omega arith)
      signed-positive (negsuc n) = omega arith

pub digit-bytes_kind : (c : ℕ) → is_digit c ≡ true → kind c ≡ bytes_kind
digit-bytes_kind c h =
    let a : (c == 100) ≡ false = ground (arith, h) in
    let b : (c == 105) ≡ false = ground (arith, h) in
    let d : (c == 108) ≡ false = ground (arith, h) in rw (a, b, d) refl

pub write_bytes-head :
    (b : List ℕ) → (c : ℕ) × (cs : List ℕ) × (write_bytes b ≡ c ∷ cs) × (is_digit c ≡ true)
unfolding write_bytes
write_bytes-head b =
    let (c, cs, eq, digit) = decimal_from-head (suc (length b)) (length b) (omega arith) in
    (c, cs ++ (58 ∷ b), rw eq refl, digit)

digit-not-end : (c : ℕ) → is_digit c ≡ true → (c == 101) ≡ false
digit-not-end c h = ground (arith, h)

pub write_bytes-not-end : (b rest : List ℕ) → byte_is (write_bytes b ++ rest) 0 101 ≡ false
write_bytes-not-end b rest =
    let (c, cs, eq, digit) = write_bytes-head b in rw eq (digit-not-end c digit)

pub serialize_value-not-end :
    (v : BencodeValue) (rest : List ℕ) → byte_is (serialize_value v ++ rest) 0 101 ≡ false
unfolding serialize_value write_number
serialize_value-not-end (bytes b) rest = write_bytes-not-end b rest
serialize_value-not-end (integer z) rest = refl
serialize_value-not-end (list l) rest = refl
serialize_value-not-end (dict d) rest = refl

pub not-end-positive :
    (xs : List ℕ) → ((rest : List ℕ) → byte_is (xs ++ rest) 0 101 ≡ false) → 0 < length xs
not-end-positive [] h = absurd (cc (h (101 ∷ [])))
not-end-positive (x ∷ xs) h = omega arith
