-- ===== src/Wire/Payloads.antt =====
-- How a payload is read back.
use rust_torrent.Prelude.{
  ℕ, ◌+◌, ◌-◌, ◌<◌, ◌≡◌, refl, ◌∙◌, ap, ◌⊎◌, inl, inr, false, some, List, ◌++◌, length,
  length-append, take, ltb, u32_mod, arith,
}
use mathlib.Core.List.{append_assoc}
use rust_torrent.Bytes.{to_be_bytes, from_be_bytes-to_be_bytes, take_front}
use rust_torrent.DoubleBuf.{DoubleBuf, consume_variable}
use rust_torrent.DoubleBuf.Flat.{flat, consume_variable-done, get_contiguous-cases}
use rust_torrent.Wire.{
  MessageDeserializeError, need_contiguous, Result, ok, err, Request, Piece, Message, request,
  cancel, reject_request, bitfield, have, suggest_piece, allowed_fast, port, piece, extended,
  Extension, serialize_request, serialize_piece, piece_len,
}
use rust_torrent.Wire.Deserialize.{
  read_request, read_piece, read_word, read_three_words, deserialize_payload,
}
use rust_torrent.Wire.Fronts.{request_parts, consume_front, read_u32_front, read_piece-eq}

module _ {Ext : Type 0} (extension : Extension Ext) where
  -- What the reader makes of a message of `k` bytes: the bytes of a bitfield must lie in one slice, and
  -- those of a piece may come in two.
  abbrev pub Decodes : Message Ext → ℕ → Result MessageDeserializeError (Message Ext × ℕ) → Type 0
  Decodes (bitfield b) k r = (r ≡ ok (bitfield b, k)) ⊎ (r ≡ err need_contiguous)
  Decodes (piece p) k r =
      (p' : Piece) × (r ≡ ok (piece p', k))
      × (p'.index ≡ p.index)
      × (p'.begin ≡ p.begin)
      × (p'.block_0 ++ p'.block_1 ≡ p.block_0 ++ p.block_1)
  Decodes m k r = r ≡ ok (m, k)

  abbrev pub IsU32Request : Request → Type 0
  IsU32Request r = (r.index < u32_mod) × (r.begin < u32_mod) × (r.length_of < u32_mod)

  -- The numbers fit their fields, a block and a bitfield are not empty, and the length of the message
  -- fits the prefix. Extended messages are left out.
  abbrev pub Fits : Message Ext → Type 0
  Fits (request r) = IsU32Request r
  Fits (cancel r) = IsU32Request r
  Fits (reject_request r) = IsU32Request r
  Fits (bitfield b) = (0 < length b) × (length b + 1 < u32_mod)
  Fits (piece p) =
      (p.index < u32_mod)
      × (p.begin < u32_mod)
      × (0 < length (p.block_0 ++ p.block_1))
      × (length (p.block_0 ++ p.block_1) + 9 < u32_mod)
  Fits (have v) = v < u32_mod
  Fits (suggest_piece v) = v < u32_mod
  Fits (allowed_fast v) = v < u32_mod
  Fits (port v) = v < 65536
  Fits (extended e) = ⊥
  Fits _ = Unit {0}

  pub word_back :
      (f : ℕ → Message Ext) (id v : ℕ) (rest : List ℕ) (buf : DoubleBuf)
      → v < u32_mod
      → flat buf ≡ to_be_bytes 4 v ++ rest
      → read_word f id 4 9 buf ≡ ok (f v, 9)
  unfolding read_word
  word_back f id v rest buf h e =
      let (buf', eq, left) = read_u32_front v rest buf h e in rw (read_word, eq)

  pub three_words_back :
      (f : Request → Message Ext) (id : ℕ) (r : Request) (rest : List ℕ) (buf : DoubleBuf)
      → IsU32Request r
      → flat buf ≡ serialize_request r ++ rest
      → read_three_words f id 12 17 buf ≡ ok (f r, 17)
  unfolding read_three_words read_request
  three_words_back f id r rest buf h e =
      let (l, index, begin, length_of) = request_parts r in
      let (buf', eq, left) = consume_front 12 (serialize_request r) rest buf l e in
      rw (
        read_three_words,
        read_request,
        eq,
        index,
        begin,
        length_of,
        from_be_bytes-to_be_bytes 4 r.index h.0,
        from_be_bytes-to_be_bytes 4 r.begin h.1,
        from_be_bytes-to_be_bytes 4 r.length_of h.2,
      )

  pub piece_back :
      (p : Piece) (rest : List ℕ) (buf : DoubleBuf)
      → Fits (piece p)
      → flat buf ≡ serialize_piece p ++ rest
      → Decodes
          (piece p)
          (8 + piece_len p + 1 + 4)
          (deserialize_payload extension 7 (8 + piece_len p) (8 + piece_len p + 1 + 4) buf)
  unfolding deserialize_payload read_piece serialize_piece
  piece_back p rest buf fits e =
      let block = p.block_0 ++ p.block_1 in
      let total = length-append p.block_0 p.block_1 in
      let tail = to_be_bytes 4 p.begin ++ block in
      let (buf₁, eq₁, left₁) =
        read_u32_front p.index (tail ++ rest) buf fits.0
          (e ∙ append_assoc (to_be_bytes 4 p.index) tail rest) in
      let (buf₂, eq₂, left₂) =
        read_u32_front p.begin (block ++ rest) buf₁ fits.1
          (left₁ ∙ append_assoc (to_be_bytes 4 p.begin) block rest) in
      let exact : 8 + piece_len p - 8 ≡ length block = omega (arith, total) in
      let (parts, buf₃, eq₃, joined, left₃) =
        consume_variable-done (length block) buf₂
          (omega (arith, ap length left₂, length-append block rest)) in
      let long : ltb (8 + piece_len p) 9 ≡ false = ground (arith, total, fits.2) in
      (
        record { index = p.index; begin = p.begin; block_0 = parts.0; block_1 = parts.1 },
        rw (
          deserialize_payload,
          long,
          read_piece-eq (8 + piece_len p) buf eq₁ eq₂
              (ap (λ (j : ℕ). consume_variable j buf₂) exact ∙ eq₃),
        ),
        refl,
        refl,
        joined ∙ ap (take (length block)) left₂ ∙ take_front block rest,
      )

  pub bitfield_back :
      (b rest : List ℕ) (buf : DoubleBuf)
      → 0 < length b
      → flat buf ≡ b ++ rest
      → Decodes
          (bitfield b)
          (length b + 1 + 4)
          (deserialize_payload extension 5 (length b) (length b + 1 + 4) buf)
  unfolding deserialize_payload
  bitfield_back b rest buf h e =
      let long : ltb (length b) 1 ≡ false = ground arith in
      elim (get_contiguous-cases (length b) buf) [
        | inl split ↦ inr (rw (deserialize_payload, long, split))
        | inr one ↦ inl (
            rw (
              deserialize_payload,
              long,
              one ∙ ap (λ (t : List ℕ). some t) (ap (take (length b)) e ∙ take_front b rest),
            ))
      ]
