-- ===== src/Wire/Tests.antt =====
-- Messages written and read.
use rust_torrent.Prelude.{ℕ, ◌≡◌, ◌≢◌, refl, Option, List, [], ◌∷◌, ◌++◌, length, replicate, arith}
use rust_torrent.Bytes.{to_be_bytes, from_be_bytes}
use rust_torrent.DoubleBuf.{DoubleBuf, consume, consume_across, read_u32_be, read_u8, len}
use rust_torrent.DoubleBuf.Flat.{flat}
use rust_torrent.Wire.{
  not_enough_data, unsupported_message_id, ok, err, panicked, Message, piece, Extension,
  serialize_piece, write_preamble, write_message, serialize,
}
use rust_torrent.Wire.Deserialize.{deserialize, deserialize_payload}
use rust_torrent.Wire.Payloads.{Decodes}
use rust_torrent.Wire.RoundTrip.{deserialize-serialize}
use rust_torrent.Wire.Total.{deserialize-calm, deserialize-take}
use rust_torrent.Lengths.{ChunkInfo}
use rust_torrent.Wire.Handshake.{
  Handshake, new_handshake, deserialize_handshake, serialize_handshake,
  deserialize_handshake-serialize_handshake,
}

-- Extended messages that are bytes alone.
abbrev raw : Extension (List ℕ)
raw = record {
  serialize_extended = λ e space. ok (length e, e);
  deserialize_extended = λ b. ok (flat b);
}

raw-calm : (b : DoubleBuf) → raw.deserialize_extended b ≢ panicked
raw-calm b e = cc

abbrev block_message : Message (List ℕ)
block_message =
    piece (record { index = 300; begin = 16384; block_0 = 7 ∷ []; block_1 = 8 ∷ 9 ∷ [] })

abbrev block_bytes : List ℕ
block_bytes = 0 ∷ 0 ∷ 0 ∷ 12 ∷ 7 ∷ 0 ∷ 0 ∷ 1 ∷ 44 ∷ 0 ∷ 0 ∷ 64 ∷ 0 ∷ 7 ∷ 8 ∷ 9 ∷ []

serialize_example : serialize raw block_message 100 ≡ ok (16, block_bytes)
unfolding serialize write_message write_preamble serialize_piece to_be_bytes
serialize_example = refl

-- The bytes of the message and one more, split in the block.
abbrev block_buf : DoubleBuf
block_buf = record {
  buf_0 = 0 ∷ 0 ∷ 0 ∷ 12 ∷ 7 ∷ 0 ∷ 0 ∷ 1 ∷ 44 ∷ 0 ∷ 0 ∷ 64 ∷ 0 ∷ 7 ∷ [];
  buf_1 = 8 ∷ 9 ∷ 255 ∷ [];
}

deserialize-serialize_example : Decodes raw block_message 16 (deserialize raw block_buf)
deserialize-serialize_example =
    deserialize-serialize raw block_message (omega arith, omega arith, omega arith, omega arith) 100
      {k = 16} {bytes = block_bytes} serialize_example (255 ∷ []) block_buf refl

abbrev some_chunk : ChunkInfo
some_chunk = record {
  piece_index = 300;
  chunk_index = 1;
  absolute_index = 2;
  size = 3;
  offset = 16384;
}

-- An unknown message id.
abbrev unknown_buf : DoubleBuf
unknown_buf = record { buf_0 = 0 ∷ 0 ∷ []; buf_1 = 0 ∷ 1 ∷ 99 ∷ [] }

unknown_example : deserialize raw unknown_buf ≡ err (unsupported_message_id 99)
unfolding deserialize deserialize_payload read_u32_be read_u8 consume consume_across len
    from_be_bytes
unknown_example = refl

deserialize-calm_example : deserialize raw unknown_buf ≢ panicked
deserialize-calm_example = deserialize-calm raw raw-calm unknown_buf

have_bytes : write_preamble 4 4 ≡ (0 ∷ 0 ∷ 0 ∷ 5 ∷ 4 ∷ [])
unfolding write_preamble to_be_bytes
have_bytes = refl

-- Of a message of nine bytes, six have come.
abbrev half_buf : DoubleBuf
half_buf = record { buf_0 = 0 ∷ 0 ∷ 0 ∷ 5 ∷ []; buf_1 = 4 ∷ 0 ∷ [] }

half_whole :
    (0 ∷ 0 ∷ 0 ∷ 5 ∷ 4 ∷ 0 ∷ []) ++ (0 ∷ 1 ∷ 2 ∷ []) ≡ write_preamble 4 4 ++ (0 ∷ 0 ∷ 1 ∷ 2 ∷ [])
unfolding write_preamble to_be_bytes
half_whole = refl

deserialize-take_example : (o : Option ℕ) × (deserialize raw half_buf ≡ err (not_enough_data 3 o))
deserialize-take_example =
    deserialize-take raw 4 4 (0 ∷ 0 ∷ 1 ∷ 2 ∷ []) refl (omega arith) (0 ∷ 0 ∷ 0 ∷ 5 ∷ 4 ∷ 0 ∷ [])
      (0 ∷ 1 ∷ 2 ∷ []) half_whole (omega arith) (omega arith) half_buf refl

abbrev some_handshake : Handshake
some_handshake = record { reserved = 1048581; info_hash = replicate 20 1; peer_id = replicate 20 2 }

new_handshake_example : new_handshake (replicate 20 1) (replicate 20 2) ≡ some_handshake
unfolding new_handshake
new_handshake_example = refl

handshake_example :
    deserialize_handshake ((serialize_handshake some_handshake).1 ++ (9 ∷ []))
    ≡ ok (some_handshake, (serialize_handshake some_handshake).0)
handshake_example =
    deserialize_handshake-serialize_handshake some_handshake (9 ∷ []) (omega arith) refl refl
