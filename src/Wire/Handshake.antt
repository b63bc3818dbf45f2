-- ===== src/Wire/Handshake.antt =====
-- The handshake of crates/librtbit-peer-protocol/src/lib.rs, on a list of bytes.
use Prim.Native.Nat.{bit_and, bit_or}
use rust_torrent.Prelude.{
  ℕ, ◌-◌, ◌^◌, ◌≤◌, ◌<◌, ◌≡◌, sym, ◌∙◌, ap, Bool, false, not, List, [], ◌∷◌, ◌++◌, length,
  length-append, take, drop, get_or, ltb, ◌==◌, if◌then◌else◌, u64_mod, arith, none,
}
use mathlib.Core.List.{append_assoc}
use rust_torrent.Bytes.{
  same_bytes, to_be_bytes, from_be_bytes, from_be_bytes-to_be_bytes, length-to_be_bytes, front_at,
  back_at,
}
use rust_torrent.Wire.{
  MessageDeserializeError, not_enough_data, handshake_pstr_wrong_content,
  handshake_pstr_wrong_length, Result, ok, err,
}

-- "BitTorrent protocol"
abbrev pub pstr_bt1 : List ℕ
pstr_bt1 =
    66 ∷ 105 ∷ 116 ∷ 84 ∷ 111 ∷ 114 ∷ 114 ∷ 101 ∷ 110 ∷ 116 ∷ 32 ∷ 112 ∷ 114 ∷ 111 ∷ 116 ∷ 111 ∷ 99
    ∷ 111 ∷ 108 ∷ []

pub record Handshake : Type 0 where
  pub reserved : ℕ
  pub info_hash : List ℕ
  pub peer_id : List ℕ

unfoldable pub new_handshake : List ℕ → List ℕ → Handshake
new_handshake info_hash peer_id = record {
  reserved = bit_or (bit_or (2 ^ 20) 1) (2 ^ 2);
  info_hash = info_hash;
  peer_id = peer_id;
}

unfoldable pub deserialize_handshake : List ℕ → Result MessageDeserializeError (Handshake × ℕ)
deserialize_handshake b =
    if ltb (length b) 68
    then err (not_enough_data (68 - length b) none)
    else if not (get_or b 0 0 == 19)
    then err (handshake_pstr_wrong_length (get_or b 0 0))
    else if not (same_bytes (take 19 (drop 1 b)) pstr_bt1)
    then err handshake_pstr_wrong_content
    else ok (
      record {
        reserved = from_be_bytes (take 8 (drop 20 b));
        info_hash = take 20 (drop 28 b);
        peer_id = take 20 (drop 48 b);
      },
      68,
    )

unfoldable pub serialize_handshake : Handshake → ℕ × List ℕ
serialize_handshake h =
    (68, 19 ∷ (pstr_bt1 ++ (to_be_bytes 8 h.reserved ++ (h.info_hash ++ h.peer_id))))

unfoldable pub supports_extended : Handshake → Bool
supports_extended h = ltb 0 (bit_and (get_or (to_be_bytes 8 h.reserved) 5 0) 16)

unfoldable pub supports_dht : Handshake → Bool
supports_dht h = not (bit_and h.reserved 1 == 0)

unfoldable pub supports_fast : Handshake → Bool
supports_fast h = not (bit_and h.reserved (2 ^ 2) == 0)

-- The parts behind the protocol's name.
handshake_parts :
    (a b c rest : List ℕ)
    → length a ≡ 8
    → length b ≡ 20
    → length c ≡ 20
    → let t = (a ++ (b ++ c)) ++ rest in
      (take 8 t ≡ a) × (take 20 (drop 8 t) ≡ b) × (take 20 (drop 28 t) ≡ c) × (48 ≤ length t)
handshake_parts a b c rest la lb lc =
    let one : (a ++ (b ++ c)) ++ rest ≡ a ++ (b ++ (c ++ rest)) =
      append_assoc a (b ++ c) rest ∙ ap (λ (t : List ℕ). a ++ t) (append_assoc b c rest) in
    let lab : length (a ++ b) ≡ 28 = omega (arith, length-append a b) in
    (
      ap (take 8) one ∙ front_at a (b ++ (c ++ rest)) la,
      ap (λ (t : List ℕ). take 20 (drop 8 t)) one
          ∙ ap (take 20) (back_at a (b ++ (c ++ rest)) la)
          ∙ front_at b (c ++ rest) lb,
      ap (λ (t : List ℕ). take 20 (drop 28 t)) (one ∙ sym (append_assoc a b (c ++ rest)))
          ∙ ap (take 20) (back_at (a ++ b) (c ++ rest) lab)
          ∙ front_at c rest lc,
      omega
          (arith, length-append (a ++ (b ++ c)) rest, length-append a (b ++ c), length-append b c),
    )

-- For a handshake with a `reserved` of 64 bits and an info hash and a peer id of 20 bytes,
-- `deserialize` on the written bytes and any more behind them returns the handshake and the count
-- that was written.
pub deserialize_handshake-serialize_handshake :
    (h : Handshake) (rest : List ℕ)
    → h.reserved < u64_mod
    → length h.info_hash ≡ 20
    → length h.peer_id ≡ 20
    → deserialize_handshake ((serialize_handshake h).1 ++ rest) ≡ ok (h, (serialize_handshake h).0)
unfolding deserialize_handshake serialize_handshake
deserialize_handshake-serialize_handshake h rest r i p =
    let (t₁, t₂, t₃, long) =
      handshake_parts (to_be_bytes 8 h.reserved) h.info_hash h.peer_id rest
        (length-to_be_bytes 8 h.reserved) i p in
    let bytes : List ℕ = (serialize_handshake h).1 ++ rest in
    let enough : ltb (length bytes) 68 ≡ false = ground (arith, long) in
    rw (enough, t₁, t₂, t₃, from_be_bytes-to_be_bytes 8 h.reserved r)
