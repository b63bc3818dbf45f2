-- ===== src/Bencode/Tests.antt =====
-- Values that are written and read.
use rust_torrent.Prelude.{ℕ, ◌<◌, ◌≡◌, refl, ◌⊎◌, List, [], ◌∷◌, length, arith}
use rust_torrent.Bencode.{
  BencodeValue, bytes, integer, list, dict, no_values, value, no_entries, entry, serialize_value,
  Error, from_bytes, from_bytes_with_rest, write_number, write_bytes, write_entries, decimal_from,
}
use rust_torrent.Prelude.Results.{ok, err}
use rust_torrent.Integers.{pos, negsuc}
use rust_torrent.Bencode.Decimal.{digits}
use rust_torrent.Bencode.Order.{sorted}
use rust_torrent.Bencode.Front.{Fits}
use rust_torrent.Bencode.RoundTrip.{from_bytes-serialize_value}
use rust_torrent.Bencode.Total.{from_bytes_with_rest-total}

-- `b` before `a`, a list in it, and a negative number.
abbrev two_keys : BencodeValue
two_keys = dict (
    entry (98 ∷ []) (list (value (bytes (120 ∷ [])) (value (integer (negsuc 11)) no_values)))
      (entry (97 ∷ []) (integer (pos 305)) no_entries))

two_keys-Fits : Fits two_keys
unfolding Fits
two_keys-Fits = (
  (omega arith, (omega arith, (omega arith, tt)), (omega arith, omega arith, tt)),
  ((refl, tt), (tt, tt)),
)

-- d1:ai305e1:bl1:xi-12eee
serialize_value_test :
    serialize_value two_keys
    ≡ 100 ∷ 49 ∷ 58 ∷ 97 ∷ 105 ∷ 51 ∷ 48 ∷ 53 ∷ 101 ∷ 49 ∷ 58 ∷ 98 ∷ 108 ∷ 49 ∷ 58 ∷ 120 ∷ 105 ∷ 45
      ∷ 49 ∷ 50 ∷ 101 ∷ 101 ∷ 101 ∷ []
unfolding serialize_value write_number write_bytes write_entries decimal_from
serialize_value_test = refl

from_bytes-serialize_value_example :
    from_bytes digits (serialize_value two_keys) ≡ ok (sorted two_keys)
from_bytes-serialize_value_example = from_bytes-serialize_value digits two_keys two_keys-Fits

-- A list that is not closed.
from_bytes_with_rest-total_example :
    ((v : BencodeValue) × (rest : List ℕ) × (from_bytes_with_rest digits (108 ∷ 105 ∷ 49 ∷ 101 ∷ [])
        ≡ ok (v, rest))
      × (length rest < 4))
    ⊎ ((e : Error) × (from_bytes_with_rest digits (108 ∷ 105 ∷ 49 ∷ 101 ∷ []) ≡ err e))
from_bytes_with_rest-total_example = from_bytes_with_rest-total digits (108 ∷ 105 ∷ 49 ∷ 101 ∷ [])
