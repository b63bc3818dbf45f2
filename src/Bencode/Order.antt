-- ===== src/Bencode/Order.antt =====
-- Dictionaries in the order of their keys, as they are written.
use rust_torrent.Prelude.{
  ℕ, ◌≡◌, refl, sym, ◌∙◌, ap, subst, true, Bool-cases, inl, inr, List, [], ◌∷◌, ◌==◌, ==→eq,
  if◌then◌else◌, arith,
}
use rust_torrent.Bytes.{same_bytes}
use rust_torrent.Bencode.{
  BencodeValue, bytes, integer, list, dict, Values, no_values, value, Entries, no_entries, entry,
  lt_bytes, btree_insert, serialize_value, serialize_entries,
}

pub same_bytes→eq : (xs ys : List ℕ) → same_bytes xs ys ≡ true → xs ≡ ys
same_bytes→eq [] [] h = refl
same_bytes→eq [] (y ∷ ys) h = cc
same_bytes→eq (x ∷ xs) [] h = cc
same_bytes→eq (x ∷ xs) (y ∷ ys) h = elim (Bool-cases (x == y)) [
  | inl t ↦ cc (==→eq x y t, same_bytes→eq xs ys (rw t at h))
  | inr f ↦ cc (rw f at h)
]

pub same_bytes_sym : (xs ys : List ℕ) → same_bytes xs ys ≡ same_bytes ys xs
same_bytes_sym [] [] = refl
same_bytes_sym [] (y ∷ ys) = refl
same_bytes_sym (x ∷ xs) [] = refl
same_bytes_sym (x ∷ xs) (y ∷ ys) = ground (arith, same_bytes_sym xs ys)

-- The entries with one more, in the order of the keys.
abbrev pub insert_entry : List ℕ → BencodeValue → Entries → Entries
insert_entry k v no_entries = entry k v no_entries
insert_entry k v (entry j w es) =
    if same_bytes j k
    then entry j v es
    else if lt_bytes k j
    then entry k v (entry j w es)
    else entry j w (insert_entry k v es)

abbrev pub order : Entries → Entries → Entries
order no_entries acc = acc
order (entry k v es) acc = order es (insert_entry k v acc)

-- A value whose dictionaries are in the order of their keys.
unfoldable mutual
  pub sorted : BencodeValue → BencodeValue
  sorted (bytes b) = bytes b
  sorted (integer z) = integer z
  sorted (list l) = list (sorted_values l)
  sorted (dict d) = dict (order (sorted_entries d) no_entries)

  pub sorted_values : Values → Values
  sorted_values no_values = no_values
  sorted_values (value v vs) = value (sorted v) (sorted_values vs)

  pub sorted_entries : Entries → Entries
  sorted_entries no_entries = no_entries
  sorted_entries (entry k v es) = entry k (sorted v) (sorted_entries es)

abbrev pub encoded : Entries → List (List ℕ × List ℕ)
encoded no_entries = []
encoded (entry k v es) = (k, serialize_value v) ∷ encoded es

encoded-insert_entry :
    (k : List ℕ) (v : BencodeValue) (es : Entries)
    → encoded (insert_entry k v es) ≡ btree_insert k (serialize_value v) (encoded es)
encoded-insert_entry k v no_entries = refl
encoded-insert_entry k v (entry j w es) = elim (Bool-cases (same_bytes j k)) [
  | inl t ↦ rw t refl
  | inr f ↦ elim (Bool-cases (lt_bytes k j)) [
    | inl lt ↦ rw (f, lt) refl
    | inr ge ↦
        rw (f, ge)
          (ap (λ (m : List (List ℕ × List ℕ)). (j, serialize_value w) ∷ m)
            (encoded-insert_entry k v es))
  ]
]

pub serialize_entries-order :
    (es acc : Entries) → serialize_entries es (encoded acc) ≡ encoded (order es acc)
unfolding serialize_value
serialize_entries-order no_entries acc = refl
serialize_entries-order (entry k v es) acc =
    ap (serialize_entries es) (sym (encoded-insert_entry k v acc))
    ∙ serialize_entries-order es (insert_entry k v acc)

sorted-insert_entry :
    (k : List ℕ) (v : BencodeValue) (es : Entries)
    → sorted_entries (insert_entry k v es) ≡ insert_entry k (sorted v) (sorted_entries es)
unfolding sorted
sorted-insert_entry k v no_entries = refl
sorted-insert_entry k v (entry j w es) = elim (Bool-cases (same_bytes j k)) [
  | inl t ↦ rw t refl
  | inr f ↦ elim (Bool-cases (lt_bytes k j)) [
    | inl lt ↦ rw (f, lt) refl
    | inr ge ↦ rw (f, ge) (ap (entry j (sorted w)) (sorted-insert_entry k v es))
  ]
]

pub sorted_entries-order :
    (es acc : Entries)
    → sorted_entries (order es acc) ≡ order (sorted_entries es) (sorted_entries acc)
unfolding sorted
sorted_entries-order no_entries acc = refl
sorted_entries-order (entry k v es) acc =
    sorted_entries-order es (insert_entry k v acc)
    ∙ ap (order (sorted_entries es)) (sorted-insert_entry k v acc)

-- A predicate of all entries.
abbrev pub Each : (List ℕ → BencodeValue → Type 0) → Entries → Type 0
Each P no_entries = Unit
Each P (entry k v es) = P k v × Each P es

module _ (P : List ℕ → BencodeValue → Type 0) where
  insert_entry-Each :
      (k : List ℕ) (v : BencodeValue) (es : Entries)
      → P k v
      → Each P es
      → Each P (insert_entry k v es)
  insert_entry-Each k v no_entries p a = (p, tt)
  insert_entry-Each k v (entry j w es) p a = elim (Bool-cases (same_bytes j k)) [
    | inl t ↦ rw t (subst (λ (i : List ℕ). P i v) (sym (same_bytes→eq j k t)) p, a.1)
    | inr f ↦ elim (Bool-cases (lt_bytes k j)) [
      | inl lt ↦ rw (f, lt) (p, a)
      | inr ge ↦ rw (f, ge) (a.0, insert_entry-Each k v es p a.1)
    ]
  ]

  pub order-Each : (es acc : Entries) → Each P es → Each P acc → Each P (order es acc)
  order-Each no_entries acc a b = b
  order-Each (entry k v es) acc a b =
      order-Each es (insert_entry k v acc) a.1 (insert_entry-Each k v acc a.0 b)
