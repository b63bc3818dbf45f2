-- ===== src/Wire/Deserialize.antt =====
-- `Message::deserialize` of crates/librtbit-peer-protocol/src/lib.rs: a message from a buffer in two parts.
use rust_torrent.Prelude.{ℕ, ◌+◌, ◌-◌, ◌*◌, none, some, take, drop, ltb, ◌==◌, if◌then◌else◌}
use rust_torrent.Bytes.{from_be_bytes}
use rust_torrent.DoubleBuf.{
  DoubleBuf, Read, done, missing, consume, consume_variable, read_u32_be, read_u8, get_contiguous,
  len, with_max_len,
}
use rust_torrent.Wire.{
  integer_len, preamble_len, msgid_choke, msgid_unchoke, msgid_interested, msgid_not_interested,
  msgid_have, msgid_bitfield, msgid_request, msgid_piece, msgid_cancel, msgid_port,
  msgid_suggest_piece, msgid_have_all, msgid_have_none, msgid_reject_request, msgid_allowed_fast,
  msgid_extended, MessageDeserializeError, not_enough_data, need_contiguous, unsupported_message_id,
  incorrect_msg_len, Result, ok, err, panicked, ◌>>=◌, Request, Piece, Message, request, cancel,
  reject_request, bitfield, keep_alive, choke, unchoke, interested, not_interested, have_all,
  have_none, have, suggest_piece, allowed_fast, port, piece, extended, Extension,
}

-- `unwrap` on what was read.
abbrev pub unwrap {ℓ} : {A : Type ℓ} → Read A → Result MessageDeserializeError (A × DoubleBuf)
unwrap (done a b) = ok (a, b)
unwrap (missing n) = panicked

-- `check_msg_len!`
abbrev pub check_msg_len {ℓ} :
    {A : Type ℓ} → ℕ → ℕ → ℕ → Result MessageDeserializeError A → Result MessageDeserializeError A
check_msg_len msg_len expected msg_id then_do =
    if msg_len == expected then then_do else err (incorrect_msg_len msg_len expected msg_id)

unfoldable pub read_request : DoubleBuf → Result MessageDeserializeError Request
read_request buf = unwrap (consume 12 buf) >>= λ (req, buf'). ok (record {
  index = from_be_bytes (take 4 req);
  begin = from_be_bytes (take 4 (drop 4 req));
  length_of = from_be_bytes (take 4 (drop 8 req));
})

unfoldable pub read_piece : ℕ → DoubleBuf → Result MessageDeserializeError Piece
read_piece msg_len buf = unwrap (read_u32_be buf) >>= λ (index, buf₁).
    unwrap (read_u32_be buf₁) >>= λ (begin, buf₂).
    unwrap (consume_variable (msg_len - integer_len * 2) buf₂) >>= λ (blocks, buf₃).
    ok (record { index = index; begin = begin; block_0 = blocks.0; block_1 = blocks.1 })

module _ {Ext : Type 0} where
  unfoldable pub read_plain :
      Message Ext → ℕ → ℕ → ℕ → Result MessageDeserializeError (Message Ext × ℕ)
  read_plain m msg_id msg_len total_len = check_msg_len msg_len 0 msg_id (ok (m, total_len))

  unfoldable pub read_word :
      (ℕ → Message Ext) → ℕ → ℕ → ℕ → DoubleBuf → Result MessageDeserializeError (Message Ext × ℕ)
  read_word f msg_id msg_len total_len buf =
      check_msg_len msg_len 4 msg_id (unwrap (read_u32_be buf) >>= λ (v, buf'). ok (f v, total_len))

  unfoldable pub read_three_words :
      (Request → Message Ext)
      → ℕ
      → ℕ
      → ℕ
      → DoubleBuf
      → Result MessageDeserializeError (Message Ext × ℕ)
  read_three_words f msg_id msg_len total_len buf =
      check_msg_len msg_len 12 msg_id (read_request buf >>= λ r. ok (f r, total_len))

module _ {Ext : Type 0} (extension : Extension Ext) where
  -- The `match` on the message id.
  unfoldable pub deserialize_payload :
      ℕ → ℕ → ℕ → DoubleBuf → Result MessageDeserializeError (Message Ext × ℕ)
  deserialize_payload msg_id msg_len total_len buf =
      if msg_id == msgid_choke
      then read_plain choke msg_id msg_len total_len
      else if msg_id == msgid_unchoke
      then read_plain unchoke msg_id msg_len total_len
      else if msg_id == msgid_interested
      then read_plain interested msg_id msg_len total_len
      else if msg_id == msgid_not_interested
      then read_plain not_interested msg_id msg_len total_len
      else if msg_id == msgid_have
      then read_word have msg_id msg_len total_len buf
      else if msg_id == msgid_port
      then check_msg_len msg_len 2 msg_id
          (unwrap (consume 2 buf) >>= λ (bytes, buf'). ok (port (from_be_bytes bytes), total_len))
      else if msg_id == msgid_suggest_piece
      then read_word suggest_piece msg_id msg_len total_len buf
      else if msg_id == msgid_allowed_fast
      then read_word allowed_fast msg_id msg_len total_len buf
      else if msg_id == msgid_have_all
      then read_plain have_all msg_id msg_len total_len
      else if msg_id == msgid_have_none
      then read_plain have_none msg_id msg_len total_len
      else if msg_id == msgid_bitfield
      then (if ltb msg_len 1
          then err (incorrect_msg_len msg_len 1 msg_id)
          else elim (get_contiguous msg_len buf) [
            | none ↦ err need_contiguous
            | some bytes ↦ ok (bitfield bytes, total_len)
          ])
      else if msg_id == msgid_request
      then read_three_words request msg_id msg_len total_len buf
      else if msg_id == msgid_cancel
      then read_three_words cancel msg_id msg_len total_len buf
      else if msg_id == msgid_reject_request
      then read_three_words reject_request msg_id msg_len total_len buf
      else if msg_id == msgid_piece
      then (if ltb msg_len 9
          then err (incorrect_msg_len msg_len 9 msg_id)
          else read_piece msg_len buf >>= λ p. ok (piece p, total_len))
      else if msg_id == msgid_extended
      then (extension.deserialize_extended (with_max_len msg_len buf) >>= λ e.
          ok (extended e, preamble_len + msg_len))
      else err (unsupported_message_id msg_id)

  unfoldable pub deserialize : DoubleBuf → Result MessageDeserializeError (Message Ext × ℕ)
  deserialize buf = elim (read_u32_be buf) [
    | missing n ↦ err (not_enough_data n none)
    | done len_prefix buf₁ ↦
        let total_len = len_prefix + 4 in
        let msg_len = len_prefix - 1 in
        if len_prefix == 0 then ok (keep_alive, total_len) else elim (read_u8 buf₁) [
          | none ↦ err (not_enough_data len_prefix none)
          | some (msg_id, buf₂) ↦
              if ltb (len buf₂) msg_len
              then err (not_enough_data (msg_len - len buf₂) (some msg_id))
              else deserialize_payload msg_id msg_len total_len buf₂
        ]
  ]
