-- ===== src/Bencode/Distinct.antt =====
-- Dictionaries without a key twice stay such in the order of their keys, and are read as they are.
use rust_torrent.Prelude.{ℕ, ◌≡◌, refl, ◌∙◌, ap, false, Bool-cases, inl, inr, List}
use rust_torrent.Bytes.{same_bytes}
use rust_torrent.Bencode.{BencodeValue, Entries, no_entries, entry, lt_bytes, put_entry}
use rust_torrent.Bencode.Order.{
  same_bytes_sym, insert_entry, order, sorted, sorted_entries, sorted_entries-order,
}

abbrev pub LacksKey : List ℕ → Entries → Type 0
LacksKey k no_entries = Unit
LacksKey k (entry j w es) = (same_bytes j k ≡ false) × LacksKey k es

-- No key occurs twice, as in a map.
abbrev pub Distinct : Entries → Type 0
Distinct no_entries = Unit
Distinct (entry k v es) = LacksKey k es × Distinct es

-- No key of the first entries is one of the second.
abbrev pub Disjoint : Entries → Entries → Type 0
Disjoint no_entries acc = Unit
Disjoint (entry k v es) acc = LacksKey k acc × Disjoint es acc

insert_entry-LacksKey :
    (i k : List ℕ) (v : BencodeValue) (es : Entries)
    → same_bytes k i ≡ false
    → LacksKey i es
    → LacksKey i (insert_entry k v es)
insert_entry-LacksKey i k v no_entries d l = (d, tt)
insert_entry-LacksKey i k v (entry j w es) d l = elim (Bool-cases (same_bytes j k)) [
  | inl t ↦ rw t l
  | inr f ↦ elim (Bool-cases (lt_bytes k j)) [
    | inl lt ↦ rw (f, lt) (d, l)
    | inr ge ↦ rw (f, ge) (l.0, insert_entry-LacksKey i k v es d l.1)
  ]
]

insert_entry-Distinct :
    (k : List ℕ) (v : BencodeValue) (es : Entries)
    → LacksKey k es
    → Distinct es
    → Distinct (insert_entry k v es)
insert_entry-Distinct k v no_entries l d = (tt, tt)
insert_entry-Distinct k v (entry j w es) l d = elim (Bool-cases (lt_bytes k j)) [
  | inl lt ↦ rw (l.0, lt) (l, d)
  | inr ge ↦
      rw (l.0, ge)
        (
          insert_entry-LacksKey j k v es (same_bytes_sym k j ∙ l.0) d.0,
          insert_entry-Distinct k v es l.1 d.1,
        )
]

-- The entries behind the first one stay apart from what the first one joins.
insert_entry-Disjoint :
    (es : Entries) (k : List ℕ) (v : BencodeValue) (acc : Entries)
    → LacksKey k es
    → Disjoint es acc
    → Disjoint es (insert_entry k v acc)
insert_entry-Disjoint no_entries k v acc l d = tt
insert_entry-Disjoint (entry j w es) k v acc l d = (
  insert_entry-LacksKey j k v acc (same_bytes_sym k j ∙ l.0) d.0,
  insert_entry-Disjoint es k v acc l.1 d.1,
)

pub order-Distinct :
    (es acc : Entries) → Distinct es → Disjoint es acc → Distinct acc → Distinct (order es acc)
order-Distinct no_entries acc d a b = b
order-Distinct (entry k v es) acc d a b =
    order-Distinct es (insert_entry k v acc) d.1 (insert_entry-Disjoint es k v acc d.0 a.1)
      (insert_entry-Distinct k v acc a.0 b)

abbrev pub put_all : Entries → Entries → Entries
put_all no_entries acc = acc
put_all (entry k v es) acc = put_all es (put_entry k v acc)

abbrev behind : Entries → Entries → Entries
behind no_entries es = es
behind (entry k v acc) es = entry k v (behind acc es)

put_entry-behind :
    (k : List ℕ) (v : BencodeValue) (acc : Entries)
    → LacksKey k acc
    → put_entry k v acc ≡ behind acc (entry k v no_entries)
put_entry-behind k v no_entries l = refl
put_entry-behind k v (entry j w acc) l = rw (l.0) (ap (entry j w) (put_entry-behind k v acc l.1))

behind-LacksKey :
    (i k : List ℕ) (v : BencodeValue) (acc : Entries)
    → same_bytes k i ≡ false
    → LacksKey i acc
    → LacksKey i (behind acc (entry k v no_entries))
behind-LacksKey i k v no_entries d l = (d, tt)
behind-LacksKey i k v (entry j w acc) d l = (l.0, behind-LacksKey i k v acc d l.1)

behind-Disjoint :
    (es : Entries) (k : List ℕ) (v : BencodeValue) (acc : Entries)
    → LacksKey k es
    → Disjoint es acc
    → Disjoint es (behind acc (entry k v no_entries))
behind-Disjoint no_entries k v acc l d = tt
behind-Disjoint (entry j w es) k v acc l d =
    (behind-LacksKey j k v acc (same_bytes_sym k j ∙ l.0) d.0, behind-Disjoint es k v acc l.1 d.1)

behind_assoc :
    (acc : Entries) (k : List ℕ) (v : BencodeValue) (es : Entries)
    → behind (behind acc (entry k v no_entries)) es ≡ behind acc (entry k v es)
behind_assoc no_entries k v es = refl
behind_assoc (entry j w acc) k v es = ap (entry j w) (behind_assoc acc k v es)

pub put_all-behind :
    (es acc : Entries) → Distinct es → Disjoint es acc → put_all es acc ≡ behind acc es
put_all-behind no_entries acc d a = behind_end acc
  where
    behind_end : (acc : Entries) → acc ≡ behind acc no_entries
    behind_end no_entries = refl
    behind_end (entry k v acc) = ap (entry k v) (behind_end acc)
put_all-behind (entry k v es) acc d a =
    ap (put_all es) (put_entry-behind k v acc a.0)
    ∙ put_all-behind es (behind acc (entry k v no_entries)) d.1 (behind-Disjoint es k v acc d.0 a.1)
    ∙ behind_assoc acc k v es

no_entries-Disjoint : (es : Entries) → Disjoint es no_entries
no_entries-Disjoint no_entries = tt
no_entries-Disjoint (entry k v es) = (tt, no_entries-Disjoint es)

sorted_entries-LacksKey :
    (i : List ℕ) (es : Entries) → LacksKey i es → LacksKey i (sorted_entries es)
unfolding sorted
sorted_entries-LacksKey i no_entries l = tt
sorted_entries-LacksKey i (entry k v es) l = (l.0, sorted_entries-LacksKey i es l.1)

sorted_entries-Distinct : (es : Entries) → Distinct es → Distinct (sorted_entries es)
unfolding sorted
sorted_entries-Distinct no_entries d = tt
sorted_entries-Distinct (entry k v es) d =
    (sorted_entries-LacksKey k es d.0, sorted_entries-Distinct es d.1)

-- What is read from the ordered entries is the ordered dictionary.
pub put_all-order :
    (es : Entries)
    → Distinct es
    → put_all (sorted_entries (order es no_entries)) no_entries
      ≡ order (sorted_entries es) no_entries
unfolding sorted
put_all-order es d =
    let d' = sorted_entries-Distinct es d in
    let whole = order (sorted_entries es) no_entries in
    ap (λ (m : Entries). put_all m no_entries) (sorted_entries-order es no_entries)
    ∙ put_all-behind whole no_entries
        (order-Distinct (sorted_entries es) no_entries d' (no_entries-Disjoint (sorted_entries es))
          tt)
        (no_entries-Disjoint whole)
