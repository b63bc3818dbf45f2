-- ===== src/Bencode.antt =====
-- crates/librtbit-bencode: the values of src/bencode_value.rs, how src/serialize.rs writes them, and how
-- src/deserialize.rs reads them. Bytes are numbers. Writing into memory does not fail. The keys that
-- the deserializer keeps for its error messages are left out. The decimal numbers are read by the crate
-- atoi, which is the parameter Atoi.
pub mod Decimal
pub mod Order
pub mod Distinct
pub mod Front
pub mod RoundTrip
pub mod Total
pub mod Tests
use rust_torrent.Prelude.Results.{Result, ok, err, out_of_fuel, ◌>>=◌}
use rust_torrent.Prelude.{
  ℕ, zero, suc, ◌+◌, ◌-◌, ◌/◌, ◌%◌, ◌^◌, ◌<◌, ◌≡◌, Bool, true, false, ◌&&◌, Option, none, some,
  List, [], ◌∷◌, ◌++◌, length, take, drop, get_elem?, ltb, leb, ◌==◌, if◌then◌else◌,
}
use rust_torrent.Integers.{ℤ, pos, negsuc}
use rust_torrent.Bytes.{same_bytes}

-- The dictionary is the list of the entries of the map in the order in which it is iterated.
mutual
  pub data BencodeValue : Type 0 where
    bytes : List ℕ → BencodeValue
    integer : ℤ → BencodeValue
    list : Values → BencodeValue
    dict : Entries → BencodeValue

  pub data Values : Type 0 where
    no_values : Values
    value : BencodeValue → Values → Values

  pub data Entries : Type 0 where
    no_entries : Entries
    entry : List ℕ → BencodeValue → Entries → Entries

-- A number as it is formatted.
unfoldable pub decimal_from : ℕ → ℕ → List ℕ
decimal_from zero n = []
decimal_from (suc fuel) n =
    let higher = decimal_from fuel (n / 10) in
    if ltb n 10 then (48 + n) ∷ [] else higher ++ ((48 + n % 10) ∷ [])

abbrev pub decimal : ℕ → List ℕ
decimal n = decimal_from (suc n) n

abbrev pub decimal_signed : ℤ → List ℕ
decimal_signed (pos n) = decimal n
decimal_signed (negsuc n) = 45 ∷ decimal (suc n)

-- `i{number}e`
unfoldable pub write_number : ℤ → List ℕ
write_number z = 105 ∷ (decimal_signed z ++ (101 ∷ []))

unfoldable pub write_bytes : List ℕ → List ℕ
write_bytes b = decimal (length b) ++ (58 ∷ b)

-- The order of the keys.
abbrev pub lt_bytes : List ℕ → List ℕ → Bool
lt_bytes [] [] = false
lt_bytes [] (y ∷ ys) = true
lt_bytes (x ∷ xs) [] = false
lt_bytes (x ∷ xs) (y ∷ ys) = if x == y then lt_bytes xs ys else ltb x y

-- `BTreeMap::insert`, on the entries in the order of the keys.
abbrev pub btree_insert : List ℕ → List ℕ → List (List ℕ × List ℕ) → List (List ℕ × List ℕ)
btree_insert k v [] = (k, v) ∷ []
btree_insert k v ((j, w) ∷ m) =
    if same_bytes j k
    then (j, v) ∷ m
    else if lt_bytes k j
    then (k, v) ∷ (j, w) ∷ m
    else (j, w) ∷ btree_insert k v m

-- The loop of `SerializeMap::end`.
unfoldable pub write_entries : List (List ℕ × List ℕ) → List ℕ
write_entries [] = []
write_entries ((k, v) ∷ m) = write_bytes k ++ (v ++ write_entries m)

unfoldable mutual
  pub serialize_value : BencodeValue → List ℕ
  serialize_value (bytes b) = write_bytes b
  serialize_value (integer v) = write_number v
  serialize_value (list l) = 108 ∷ (serialize_values l ++ (101 ∷ []))
  serialize_value (dict d) = 100 ∷ (write_entries (serialize_entries d []) ++ (101 ∷ []))

  pub serialize_values : Values → List ℕ
  serialize_values no_values = []
  serialize_values (value v vs) = serialize_value v ++ serialize_values vs

  -- The map `tmp` of `SerializeMap`.
  pub serialize_entries : Entries → List (List ℕ × List ℕ) → List (List ℕ × List ℕ)
  serialize_entries no_entries tmp = tmp
  serialize_entries (entry k v es) tmp =
      serialize_entries es (btree_insert k (serialize_value v) tmp)

pub data Error : Type 0 where
  not_supported invalid_value raw_de_invalid_value invalid_utf8 eof : Error
  custom : List ℕ → Error
  invalid_bool bytes_remaining invalid_length : ℕ → Error

abbrev pub is_digit : ℕ → Bool
is_digit c = leb 48 c && leb c 57

abbrev pub InI64 : ℤ → Type 0
InI64 (pos n) = n < 2 ^ 63
InI64 (negsuc n) = n < 2 ^ 63

-- `from_radix_10` and `from_radix_10_signed`: the number at the front, and how many bytes it has. What is
-- used of them is that they read the decimal numbers of the machine's range.
pub record Atoi : Type 0 where
  pub from_radix_10 : List ℕ → ℕ × ℕ
  pub from_radix_10_signed : List ℕ → ℤ × ℕ
  pub reads :
      (n : ℕ)
      → n < 2 ^ 64
      → (c : ℕ) (rest : List ℕ) → is_digit c ≡ false
      → from_radix_10 (decimal n ++ (c ∷ rest)) ≡ (n, length (decimal n))
  pub reads_signed :
      (z : ℤ)
      → InI64 z
      → (c : ℕ) (rest : List ℕ) → is_digit c ≡ false
      → from_radix_10_signed (decimal_signed z ++ (c ∷ rest)) ≡ (z, length (decimal_signed z))

-- `buf.get(i) == Some(c)`
abbrev pub byte_is : List ℕ → ℕ → ℕ → Bool
byte_is [] i c = false
byte_is (b ∷ bs) zero c = b == c
byte_is (b ∷ bs) (suc i) c = byte_is bs i c

pub data Kind : Type 0 where
  map_kind integer_kind seq_kind bytes_kind : Kind

-- The `match` of `deserialize_any`.
abbrev pub kind : ℕ → Kind
kind c =
    if c == 100
    then map_kind
    else if c == 105
    then integer_kind
    else if c == 108
    then seq_kind
    else bytes_kind

-- `HashMap::insert`
abbrev pub put_entry : List ℕ → BencodeValue → Entries → Entries
put_entry k v no_entries = entry k v no_entries
put_entry k v (entry j w es) = if same_bytes j k then entry j v es else entry j w (put_entry k v es)

-- Enough fuel for any buffer.
abbrev pub fuel_for : List ℕ → ℕ
fuel_for buf = length buf + length buf + 1

module _ (atoi : Atoi) where
  unfoldable pub parse_bytes : List ℕ → Result Error (List ℕ × List ℕ)
  parse_bytes buf =
      let (v, len) = atoi.from_radix_10 buf in
      if ltb 0 len && byte_is buf len 58
      then (let rest = drop (len + 1) buf in
          if ltb (length rest) v then err eof else ok (take v rest, drop v rest))
      else err invalid_value

  -- `parse_integer` behind the first byte.
  unfoldable pub parse_number : List ℕ → Result Error (ℤ × List ℕ)
  parse_number buf =
      let (v, len) = atoi.from_radix_10_signed buf in
      if ltb 0 len && byte_is buf len 101 then ok (v, drop (len + 1) buf) else err invalid_value

  unfoldable pub parse_integer : List ℕ → Result Error (ℤ × List ℕ)
  parse_integer [] = err eof
  parse_integer (c ∷ cs) = if c == 105 then parse_number cs else err invalid_value

  unfoldable mutual
    -- `deserialize_any` with the visitor of BencodeValue.
    pub parse_value : ℕ → List ℕ → Result Error (BencodeValue × List ℕ)
    parse_value zero buf = out_of_fuel
    parse_value (suc fuel) [] = err eof
    parse_value (suc fuel) (c ∷ cs) = elim (kind c) [
      | map_kind ↦ parse_entries fuel no_entries cs >>= λ (d, rest). ok (dict d, rest)
      | integer_kind ↦ parse_integer (c ∷ cs) >>= λ (v, rest). ok (integer v, rest)
      | seq_kind ↦ parse_values fuel cs >>= λ (l, rest). ok (list l, rest)
      | bytes_kind ↦ parse_bytes (c ∷ cs) >>= λ (b, rest). ok (bytes b, rest)
    ]

    -- `visit_seq`
    pub parse_values : ℕ → List ℕ → Result Error (Values × List ℕ)
    parse_values zero buf = out_of_fuel
    parse_values (suc fuel) buf = elim (byte_is buf 0 101) [
      | true ↦ ok (no_values, drop 1 buf)
      | false ↦ parse_value fuel buf >>= λ (v, rest).
          parse_values fuel rest >>= λ (vs, rest'). ok (value v vs, rest')
    ]

    -- `visit_map`
    pub parse_entries : ℕ → Entries → List ℕ → Result Error (Entries × List ℕ)
    parse_entries zero hmap buf = out_of_fuel
    parse_entries (suc fuel) hmap buf = elim (byte_is buf 0 101) [
      | true ↦ ok (hmap, drop 1 buf)
      | false ↦ parse_bytes buf >>= λ (k, rest).
          parse_value fuel rest >>= λ (v, rest'). parse_entries fuel (put_entry k v hmap) rest'
    ]

  unfoldable pub from_bytes_with_rest : List ℕ → Result Error (BencodeValue × List ℕ)
  from_bytes_with_rest buf = parse_value (fuel_for buf) buf

  unfoldable pub from_bytes : List ℕ → Result Error BencodeValue
  from_bytes buf = from_bytes_with_rest buf >>= λ (v, rest).
      if ltb 0 (length rest) then err (bytes_remaining (length rest)) else ok v
