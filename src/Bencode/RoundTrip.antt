-- ===== src/Bencode/RoundTrip.antt =====
-- What is written is read back, in the order of the keys.
use mathlib.Core.List.{append_assoc, append-nil}
use rust_torrent.Prelude.{
  ℕ, zero, suc, ◌+◌, ◌*◌, ◌^◌, ◌≤◌, ◌<◌, ◌≡◌, refl, ◌∙◌, ap, false, List, [], ◌∷◌, ◌++◌, length,
  length-append, arith,
}
use rust_torrent.Bencode.{
  BencodeValue, bytes, integer, list, dict, Values, no_values, value, Entries, no_entries, entry,
  put_entry, write_number, write_bytes, write_entries, serialize_value, serialize_values, InI64,
  Atoi, byte_is, parse_bytes, parse_integer, parse_value, parse_values, parse_entries, fuel_for,
  from_bytes, from_bytes_with_rest,
}
use rust_torrent.Prelude.Results.{ok}
use rust_torrent.Integers.{ℤ}
use rust_torrent.Bencode.Order.{
  sorted, sorted_values, sorted_entries, order, encoded, serialize_entries-order, Each, order-Each,
}
use rust_torrent.Bencode.Distinct.{put_all, Distinct, put_all-order}
use rust_torrent.Bencode.Front.{
  Fits, FitsValues, FitsEntries, parse_bytes-back, parse_number-back, digit-bytes_kind,
  write_bytes-head, write_bytes-not-end, serialize_value-not-end, not-end-positive,
}

module _ (atoi : Atoi) where
  -- A value is read back in front of anything.
  abbrev Back : BencodeValue → Type 0
  Back v =
      (fuel : ℕ) (rest : List ℕ)
      → length (serialize_value v) * 2 + 1 ≤ fuel
      → parse_value atoi fuel (serialize_value v ++ rest) ≡ ok (sorted v, rest)

  abbrev EntryBack : List ℕ → BencodeValue → Type 0
  EntryBack k v = (length k < 2 ^ 64) × Back v

  bytes-Back : (b : List ℕ) → length b < 2 ^ 64 → Back (bytes b)
  unfolding serialize_value sorted parse_value
  bytes-Back b h zero rest f = absurd (omega arith)
  bytes-Back b h (suc fuel) rest f =
      let (c, cs, eq, digit) = write_bytes-head b in
      let back = parse_bytes-back atoi b rest h in
      rw (eq, parse_value, digit-bytes_kind c digit, rw eq at back) refl

  integer-Back : (z : ℤ) → InI64 z → Back (integer z)
  unfolding serialize_value sorted parse_value write_number parse_integer
  integer-Back z h zero rest f = absurd (omega arith)
  integer-Back z h (suc fuel) rest f = rw (parse_number-back atoi z rest h) refl

  entry-length :
      (k v more : List ℕ)
      → length (write_bytes k ++ (v ++ more)) ≡ length (write_bytes k) + (length v + length more)
  entry-length k v more =
      omega (arith, length-append (write_bytes k) (v ++ more), length-append v more)

  entry-shape :
      (k v more rest : List ℕ)
      → (write_bytes k ++ (v ++ more)) ++ rest ≡ write_bytes k ++ (v ++ (more ++ rest))
  entry-shape k v more rest =
      append_assoc (write_bytes k) (v ++ more) rest
      ∙ ap (λ (t : List ℕ). write_bytes k ++ t) (append_assoc v more rest)

  parse_entries-step :
      {k rest rest' : List ℕ} {v : BencodeValue} (fuel : ℕ) (acc : Entries) (buf : List ℕ)
      → byte_is buf 0 101 ≡ false
      → parse_bytes atoi buf ≡ ok (k, rest)
      → parse_value atoi fuel rest ≡ ok (v, rest')
      → parse_entries atoi (suc fuel) acc buf ≡ parse_entries atoi fuel (put_entry k v acc) rest'
  unfolding parse_value
  parse_entries-step fuel acc buf a b c = rw (parse_entries, a, b, c) refl

  parse_values-step :
      {rest rest' : List ℕ} {v : BencodeValue} {vs : Values} (fuel : ℕ) (buf : List ℕ)
      → byte_is buf 0 101 ≡ false
      → parse_value atoi fuel buf ≡ ok (v, rest)
      → parse_values atoi fuel rest ≡ ok (vs, rest')
      → parse_values atoi (suc fuel) buf ≡ ok (value v vs, rest')
  unfolding parse_value
  parse_values-step fuel buf a b c = rw (parse_values, a, b, c) refl

  parse_entries-back :
      (es acc : Entries) (fuel : ℕ) (rest : List ℕ)
      → Each EntryBack es
      → length (write_entries (encoded es)) * 2 + 2 ≤ fuel
      → parse_entries atoi fuel acc (write_entries (encoded es) ++ (101 ∷ rest))
        ≡ ok (put_all (sorted_entries es) acc, rest)
  unfolding parse_value sorted write_entries
  parse_entries-back es acc zero rest a f = absurd (omega arith)
  parse_entries-back no_entries acc (suc fuel) rest a f = refl
  parse_entries-back (entry k v es) acc (suc fuel) rest a f =
      let more = write_entries (encoded es) in
      let behind = serialize_value v ++ (more ++ (101 ∷ rest)) in
      let len : length (write_entries (encoded (entry k v es)))
          ≡ length (write_bytes k) + (length (serialize_value v) + length more) =
        entry-length k (serialize_value v) more in
      let some_bytes = not-end-positive (write_bytes k) (write_bytes-not-end k) in
      ap (parse_entries atoi (suc fuel) acc) (entry-shape k (serialize_value v) more (101 ∷ rest))
      ∙ parse_entries-step fuel acc (write_bytes k ++ behind) (write_bytes-not-end k behind)
          (parse_bytes-back atoi k behind a.0.0)
          (a.0.1 fuel (more ++ (101 ∷ rest)) (omega (arith, f, len)))
      ∙ parse_entries-back es (put_entry k (sorted v) acc) fuel rest a.1
          (omega (arith, f, len, some_bytes))

  dict-Back : (es : Entries) → Each EntryBack es → Distinct es → Back (dict es)
  unfolding serialize_value sorted parse_value
  dict-Back es a d zero rest f = absurd (omega arith)
  dict-Back es a d (suc fuel) rest f =
      let ordered = order es no_entries in
      let written = write_entries (encoded ordered) in
      let same = serialize_entries-order es no_entries in
      let shape = append_assoc written (101 ∷ []) rest in
      let len = length-append written (101 ∷ []) in
      let f' = rw same at f in
      let read =
        parse_entries-back ordered no_entries fuel rest (order-Each EntryBack es no_entries a tt)
          (omega (arith, f', len)) in
      rw (same, shape, read, put_all-order es d) refl

  -- Values are read back in front of the end of their list.
  abbrev ValuesBack : Values → Type 0
  ValuesBack vs =
      (fuel : ℕ) (rest : List ℕ)
      → length (serialize_values vs) * 2 + 2 ≤ fuel
      → parse_values atoi fuel (serialize_values vs ++ (101 ∷ rest)) ≡ ok (sorted_values vs, rest)

  list-Back : (l : Values) → ValuesBack l → Back (list l)
  unfolding serialize_value sorted parse_value
  list-Back l h zero rest f = absurd (omega arith)
  list-Back l h (suc fuel) rest f =
      let len = length-append (serialize_values l) (101 ∷ []) in
      let shape = append_assoc (serialize_values l) (101 ∷ []) rest in
      rw (shape, h fuel rest (omega (arith, f, len))) refl

  no_values-Back : ValuesBack no_values
  unfolding serialize_value sorted parse_value
  no_values-Back zero rest f = absurd (omega arith)
  no_values-Back (suc fuel) rest f = refl

  value-Back : (v : BencodeValue) (vs : Values) → Back v → ValuesBack vs → ValuesBack (value v vs)
  unfolding serialize_value sorted
  value-Back v vs b bs zero rest f = absurd (omega arith)
  value-Back v vs b bs (suc fuel) rest f =
      let more = serialize_values vs ++ (101 ∷ rest) in
      let len = length-append (serialize_value v) (serialize_values vs) in
      let some_bytes = not-end-positive (serialize_value v) (serialize_value-not-end v) in
      ap (parse_values atoi (suc fuel))
        (append_assoc (serialize_value v) (serialize_values vs) (101 ∷ rest))
      ∙ parse_values-step fuel (serialize_value v ++ more) (serialize_value-not-end v more)
          (b fuel more (omega (arith, f, len))) (bs fuel rest (omega (arith, f, len, some_bytes)))

  mutual
    unfolding Fits

    Fits-Back : (v : BencodeValue) → Fits v → Back v
    Fits-Back (bytes b) h = bytes-Back b h
    Fits-Back (integer z) h = integer-Back z h
    Fits-Back (list l) h = list-Back l (values-Back l h)
    Fits-Back (dict es) h = dict-Back es (entries-Back es h.0) h.1

    values-Back : (l : Values) → FitsValues l → ValuesBack l
    values-Back no_values h = no_values-Back
    values-Back (value v vs) h = value-Back v vs (Fits-Back v h.0) (values-Back vs h.1)

    entries-Back : (es : Entries) → FitsEntries es → Each EntryBack es
    entries-Back no_entries h = tt
    entries-Back (entry k v es) h = ((h.0, Fits-Back v h.1), entries-Back es h.2)

  -- A value with lengths below 2 ^ 64, integers in the range of i64 and no key twice in a
  -- dictionary is read back by `from_bytes` from what is written for it, with the entries of each
  -- dictionary in the order of their keys. This holds for any `from_radix_10` and
  -- `from_radix_10_signed` that read back decimal numbers of their range.
  pub from_bytes-serialize_value :
      (v : BencodeValue) → Fits v → from_bytes atoi (serialize_value v) ≡ ok (sorted v)
  unfolding from_bytes from_bytes_with_rest
  from_bytes-serialize_value v h =
      let buf = serialize_value v in
      let read = Fits-Back v h (fuel_for buf) [] (omega arith) in
      let whole = append-nil buf in rw (rw whole at read) refl
