-- ===== src/Wire.antt =====
-- crates/librtbit-peer-protocol/src/lib.rs: the messages of the peer protocol. A byte is its number. What
-- a method writes into a buffer is the list of the bytes from the buffer's start on, beside the count
-- that the method returns; of the buffer only its length is read.
pub mod Deserialize
pub mod Fronts
pub mod Payloads
pub mod RoundTrip
pub mod Total
pub mod Handshake
pub mod Preamble
pub mod Tests
use rust_torrent.Prelude.{
  ℕ, zero, suc, ◌+◌, ◌-◌, ◌*◌, ◌/◌, ◌%◌, Bool, true, false, not, Option, none, some, List, [], ◌∷◌,
  ◌++◌, length, take, drop, ltb, ◌==◌, if◌then◌else◌, add_u32, as_u32,
}
use rust_torrent.Bytes.{to_be_bytes}
use rust_torrent.DoubleBuf.{DoubleBuf}
use rust_torrent.Lengths.{ChunkInfo}

abbrev pub integer_len : ℕ
integer_len = 4

abbrev pub preamble_len : ℕ
preamble_len = 5

abbrev pub msgid_choke : ℕ
msgid_choke = 0

abbrev pub msgid_unchoke : ℕ
msgid_unchoke = 1

abbrev pub msgid_interested : ℕ
msgid_interested = 2

abbrev pub msgid_not_interested : ℕ
msgid_not_interested = 3

abbrev pub msgid_have : ℕ
msgid_have = 4

abbrev pub msgid_bitfield : ℕ
msgid_bitfield = 5

abbrev pub msgid_request : ℕ
msgid_request = 6

abbrev pub msgid_piece : ℕ
msgid_piece = 7

abbrev pub msgid_cancel : ℕ
msgid_cancel = 8

abbrev pub msgid_port : ℕ
msgid_port = 9

abbrev pub msgid_suggest_piece : ℕ
msgid_suggest_piece = 13

abbrev pub msgid_have_all : ℕ
msgid_have_all = 14

abbrev pub msgid_have_none : ℕ
msgid_have_none = 15

abbrev pub msgid_reject_request : ℕ
msgid_reject_request = 16

abbrev pub msgid_allowed_fast : ℕ
msgid_allowed_fast = 17

abbrev pub msgid_extended : ℕ
msgid_extended = 20

-- The errors of the extended messages are those of `in_extended`.
pub data MessageDeserializeError : Type 0 where
  not_enough_data : ℕ → Option ℕ → MessageDeserializeError
  need_contiguous : MessageDeserializeError
  unsupported_message_id : ℕ → MessageDeserializeError
  -- received, expected, and the message id
  incorrect_msg_len : ℕ → ℕ → ℕ → MessageDeserializeError
  in_extended : ℕ → MessageDeserializeError
  handshake_pstr_wrong_content : MessageDeserializeError
  handshake_pstr_wrong_length : ℕ → MessageDeserializeError

pub data SerializeError : Type 0 where
  no_space_in_buffer : SerializeError
  extended_error : ℕ → SerializeError

pub data Result {ℓ κ} (E : Type ℓ) (A : Type κ) : Type (ℓ ⊔ κ) where
  ok : A → Result E A
  err : E → Result E A
  panicked : Result E A

pub record Request : Type 0 where
  pub index : ℕ
  pub begin : ℕ
  pub length_of : ℕ

pub record Piece : Type 0 where
  pub index : ℕ
  pub begin : ℕ
  pub block_0 : List ℕ
  pub block_1 : List ℕ

pub data Message (Ext : Type 0) : Type 0 where
  request cancel reject_request : Request → Message Ext
  bitfield : List ℕ → Message Ext
  keep_alive choke unchoke interested not_interested have_all have_none : Message Ext
  have suggest_piece allowed_fast port : ℕ → Message Ext
  piece : Piece → Message Ext
  extended : Ext → Message Ext

-- The extended messages, and how they are written and read: `ExtendedMessage::serialize`, given the
-- length of the buffer, and `ExtendedMessage::deserialize`.
pub record Extension (Ext : Type 0) : Type 0 where
  pub serialize_extended : Ext → ℕ → Result SerializeError (ℕ × List ℕ)
  pub deserialize_extended : DoubleBuf → Result MessageDeserializeError Ext

infixl 5 ◌>>=◌
abbrev pub ◌>>=◌ {ℓ κ μ} :
    {E : Type ℓ} {A : Type κ} {B : Type μ} → Result E A → (A → Result E B) → Result E B
ok a >>= f = f a
err e >>= f = err e
panicked >>= f = panicked

unfoldable pub serialize_request : Request → List ℕ
serialize_request r = to_be_bytes 4 r.index ++ (to_be_bytes 4 r.begin ++ to_be_bytes 4 r.length_of)

unfoldable pub serialize_piece : Piece → List ℕ
serialize_piece p = to_be_bytes 4 p.index ++ (to_be_bytes 4 p.begin ++ (p.block_0 ++ p.block_1))

abbrev pub piece_len : Piece → ℕ
piece_len p = length p.block_0 + length p.block_1

-- The header of a block that is not at hand, with the count that the function returns.
unfoldable pub serialize_piece_preamble : ChunkInfo → ℕ × List ℕ
serialize_piece_preamble chunk =
    let len_prefix = add_u32 (1 + integer_len * 2) chunk.size in
    (
      13,
      to_be_bytes 4 len_prefix
          ++ (msgid_piece ∷ (to_be_bytes 4 chunk.piece_index ++ to_be_bytes 4 chunk.offset)),
    )

-- `write_preamble!`
unfoldable pub write_preamble : ℕ → ℕ → List ℕ
write_preamble msg_len msg_id = to_be_bytes 4 (add_u32 msg_len 1) ++ (msg_id ∷ [])

-- `check_len!` and what is written behind it: a preamble and a payload.
unfoldable pub write_message : ℕ → ℕ → ℕ → ℕ → List ℕ → Result SerializeError (ℕ × List ℕ)
write_message space total_len msg_len msg_id payload =
    if ltb space total_len
    then err no_space_in_buffer
    else ok (total_len, write_preamble msg_len msg_id ++ payload)

module _ {Ext : Type 0} (extension : Extension Ext) where
  unfoldable pub serialize : Message Ext → ℕ → Result SerializeError (ℕ × List ℕ)
  serialize (request r) space = write_message space 17 12 msgid_request (serialize_request r)
  serialize (cancel r) space = write_message space 17 12 msgid_cancel (serialize_request r)
  serialize (reject_request r) space =
      write_message space 17 12 msgid_reject_request (serialize_request r)
  serialize (bitfield b) space =
      write_message space (preamble_len + length b) (as_u32 (length b)) msgid_bitfield b
  serialize choke space = write_message space preamble_len 0 msgid_choke []
  serialize unchoke space = write_message space preamble_len 0 msgid_unchoke []
  serialize interested space = write_message space preamble_len 0 msgid_interested []
  serialize not_interested space = write_message space preamble_len 0 msgid_not_interested []
  serialize have_all space = write_message space preamble_len 0 msgid_have_all []
  serialize have_none space = write_message space preamble_len 0 msgid_have_none []
  serialize (piece p) space =
      let payload_len = integer_len * 2 + piece_len p in
      write_message space (preamble_len + payload_len) (as_u32 payload_len) msgid_piece
        (serialize_piece p)
  serialize keep_alive space =
      if ltb space 4 then err no_space_in_buffer else ok (4, to_be_bytes 4 0)
  serialize (have v) space = write_message space 9 4 msgid_have (to_be_bytes 4 v)
  serialize (port p) space = write_message space 7 2 msgid_port (to_be_bytes 2 p)
  serialize (suggest_piece p) space = write_message space 9 4 msgid_suggest_piece (to_be_bytes 4 p)
  serialize (allowed_fast p) space = write_message space 9 4 msgid_allowed_fast (to_be_bytes 4 p)
  serialize (extended e) space =
      if ltb space 7
      then err no_space_in_buffer
      else extension.serialize_extended e (space - preamble_len) >>= λ (msg_len, payload).
          ok (preamble_len + msg_len, write_preamble (as_u32 msg_len) msgid_extended ++ payload)
