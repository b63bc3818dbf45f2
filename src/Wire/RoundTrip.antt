-- ===== src/Wire/RoundTrip.antt =====
-- A message that is written is read back, however the buffer is split.
use rust_torrent.Prelude.{
  ℕ, ◌+◌, ◌-◌, ◌<◌, ◌≡◌, refl, sym, ◌∙◌, ap, inl, inr, subst, false, Bool-cases, List, [], ◌∷◌,
  ◌++◌, length, length-append, ltb, ◌==◌, add_u32, as_u32, u32_mod, arith,
}
use mathlib.Core.List.{append_assoc}
use rust_torrent.Bytes.{to_be_bytes, from_be_bytes-to_be_bytes, length-to_be_bytes}
use rust_torrent.DoubleBuf.{DoubleBuf, len}
use rust_torrent.DoubleBuf.Flat.{flat, read_u8-some, len-flat}
use rust_torrent.Wire.{
  MessageDeserializeError, Result, ok, Request, Piece, Message, request, cancel, reject_request,
  bitfield, keep_alive, choke, unchoke, interested, not_interested, have_all, have_none, have,
  suggest_piece, allowed_fast, port, piece, extended, Extension, serialize_request, serialize_piece,
  piece_len, write_preamble, write_message, serialize,
}
use rust_torrent.Wire.Deserialize.{
  read_plain, read_word, read_three_words, deserialize_payload, deserialize,
}
use rust_torrent.Wire.Fronts.{request_parts, consume_front, read_u32_front, write_message-ok}
use rust_torrent.Wire.Payloads.{
  Decodes, IsU32Request, Fits, word_back, three_words_back, piece_back, bitfield_back,
}

module _ {Ext : Type 0} (extension : Extension Ext) where
  -- The length and the id are read, and the payload is left.
  deserialize_front :
      (id n : ℕ) (payload rest : List ℕ) (buf : DoubleBuf)
      → length payload ≡ n
      → n + 1 < u32_mod
      → flat buf ≡ (write_preamble n id ++ payload) ++ rest
      → (buf' : DoubleBuf) × (flat buf' ≡ payload ++ rest)
        × (deserialize extension buf ≡ deserialize_payload extension id n (n + 1 + 4) buf')
  unfolding deserialize write_preamble
  deserialize_front id n payload rest buf l h e =
      let prefix : add_u32 n 1 ≡ n + 1 = omega arith in
      let split = append_assoc (to_be_bytes 4 (n + 1)) (id ∷ []) payload in
      let bytes : flat buf ≡ to_be_bytes 4 (n + 1) ++ (id ∷ (payload ++ rest)) =
        e ∙ rw (prefix, split) (append_assoc (to_be_bytes 4 (n + 1)) (id ∷ payload) rest) in
      let (buf₁, eq₁, left₁) = read_u32_front (n + 1) (id ∷ (payload ++ rest)) buf h bytes in
      let (buf₂, eq₂, left₂) = read_u8-some buf₁ left₁ in
      let more : (n + 1 == 0) ≡ false = ground arith in
      let back : n + 1 - 1 ≡ n = omega arith in
      let enough : ltb (len buf₂) n ≡ false =
        ground (arith, len-flat buf₂, ap length left₂, length-append payload rest) in
      (buf₂, left₂, rw (deserialize, eq₁, more, eq₂, back, enough))

  -- A message from its preamble and its payload.
  via :
      (m : Message Ext) (space total n id : ℕ) (payload : List ℕ) {k : ℕ} {bytes : List ℕ}
      → length payload ≡ n
      → n + 1 < u32_mod
      → n + 1 + 4 ≡ total
      → write_message space total n id payload ≡ ok (k, bytes)
      → (rest : List ℕ) (buf : DoubleBuf) → flat buf ≡ bytes ++ rest
      → ((buf' : DoubleBuf)
          → flat buf' ≡ payload ++ rest
          → Decodes extension m (n + 1 + 4) (deserialize_payload extension id n (n + 1 + 4) buf'))
      → Decodes extension m k (deserialize extension buf)
  via m space total n id payload {k} {bytes} l h t w rest buf e back =
      let (same_k, same_bytes) = write_message-ok space total n id payload w in
      let (buf', left, eq) =
        deserialize_front id n payload rest buf l h
          (e ∙ ap (λ (b : List ℕ). b ++ rest) (sym same_bytes)) in
      subst (λ (j : ℕ). Decodes extension m j (deserialize extension buf)) (t ∙ same_k)
        (subst (Decodes extension m (n + 1 + 4)) (sym eq) (back buf' left))

  length-serialize_piece : (p : Piece) → length (serialize_piece p) ≡ 8 + piece_len p
  unfolding serialize_piece
  length-serialize_piece p =
      let block = p.block_0 ++ p.block_1 in
      omega (
        arith,
        length-append (to_be_bytes 4 p.index) (to_be_bytes 4 p.begin ++ block),
        length-append (to_be_bytes 4 p.begin) block,
        length-append p.block_0 p.block_1,
        length-to_be_bytes 4 p.index,
        length-to_be_bytes 4 p.begin,
      )

  keep_alive_back :
      (space : ℕ) {k : ℕ} {bytes : List ℕ}
      → serialize extension keep_alive space ≡ ok (k, bytes)
      → (rest : List ℕ) (buf : DoubleBuf) → flat buf ≡ bytes ++ rest
      → deserialize extension buf ≡ ok (keep_alive, k)
  unfolding serialize deserialize
  keep_alive_back space {k} {bytes} w rest buf e = elim (Bool-cases (ltb space 4)) [
    | inl full ↦ cc (rw (serialize, full) at w)
    | inr fits ↦
        let w' = rw (serialize, fits) at w in
        let four : 4 ≡ k = cc w' in
        let zeros : to_be_bytes 4 0 ≡ bytes = cc w' in
        let (buf', eq, left) =
          read_u32_front 0 rest buf (omega arith)
            (e ∙ ap (λ (b : List ℕ). b ++ rest) (sym zeros)) in
        rw (deserialize, eq) (ap (λ (j : ℕ). ok (keep_alive, j)) four)
  ]

  serialized_word :
      (f : ℕ → Message Ext) (id v space : ℕ) {k : ℕ} {bytes : List ℕ}
      → v < u32_mod
      → ((buf : DoubleBuf) (r : Result MessageDeserializeError (Message Ext × ℕ))
          → r ≡ ok (f v, 9)
          → Decodes extension (f v) 9 r)
      → ((buf : DoubleBuf) → deserialize_payload extension id 4 9 buf ≡ read_word f id 4 9 buf)
      → write_message space 9 4 id (to_be_bytes 4 v) ≡ ok (k, bytes)
      → (rest : List ℕ) (buf : DoubleBuf) → flat buf ≡ bytes ++ rest
      → Decodes extension (f v) k (deserialize extension buf)
  serialized_word f id v space h decodes step w rest buf e =
      via (f v) space 9 4 id (to_be_bytes 4 v) (length-to_be_bytes 4 v) (omega arith) (omega arith)
        w rest buf e
        (λ buf' left. decodes buf' _ (step buf' ∙ word_back extension f id v rest buf' h left))

  serialized_request :
      (f : Request → Message Ext) (id space : ℕ) (r : Request) {k : ℕ} {bytes : List ℕ}
      → IsU32Request extension r
      → ((o : Result MessageDeserializeError (Message Ext × ℕ))
          → o ≡ ok (f r, 17)
          → Decodes extension (f r) 17 o)
      → ((buf : DoubleBuf)
          → deserialize_payload extension id 12 17 buf ≡ read_three_words f id 12 17 buf)
      → write_message space 17 12 id (serialize_request r) ≡ ok (k, bytes)
      → (rest : List ℕ) (buf : DoubleBuf) → flat buf ≡ bytes ++ rest
      → Decodes extension (f r) k (deserialize extension buf)
  serialized_request f id space r h decodes step w rest buf e =
      via (f r) space 17 12 id (serialize_request r) (request_parts r).0 (omega arith) (omega arith)
        w rest buf e
        (λ buf' left. decodes _ (step buf' ∙ three_words_back extension f id r rest buf' h left))

  -- Take a message that is not an extended one, whose numbers fit their fields (32 bits, 16 for a
  -- port), whose bitfield or block is not empty and has a length that fits the length prefix. If
  -- `serialize` writes it into a buffer, with any interface for extended messages, then
  -- `deserialize` on a buffer in two slices that begins with the written bytes returns this message
  -- and the count that `serialize` returned. A bitfield may be answered with `NeedContiguous`
  -- instead, and a piece comes back with the same index, begin and bytes of its two blocks
  -- together.
  pub deserialize-serialize :
      (m : Message Ext)
      → Fits extension m
      → (space : ℕ) {k : ℕ} {bytes : List ℕ} → serialize extension m space ≡ ok (k, bytes)
      → (rest : List ℕ) (buf : DoubleBuf) → flat buf ≡ bytes ++ rest
      → Decodes extension m k (deserialize extension buf)
  unfolding serialize deserialize_payload read_plain
  deserialize-serialize (request r) fits space w rest buf e =
      serialized_request request 6 space r fits (λ o h. h) (λ b. refl) w rest buf e
  deserialize-serialize (cancel r) fits space w rest buf e =
      serialized_request cancel 8 space r fits (λ o h. h) (λ b. refl) w rest buf e
  deserialize-serialize (reject_request r) fits space w rest buf e =
      serialized_request reject_request 16 space r fits (λ o h. h) (λ b. refl) w rest buf e
  deserialize-serialize (have v) fits space w rest buf e =
      serialized_word have 4 v space fits (λ b o h. h) (λ b. refl) w rest buf e
  deserialize-serialize (suggest_piece v) fits space w rest buf e =
      serialized_word suggest_piece 13 v space fits (λ b o h. h) (λ b. refl) w rest buf e
  deserialize-serialize (allowed_fast v) fits space w rest buf e =
      serialized_word allowed_fast 17 v space fits (λ b o h. h) (λ b. refl) w rest buf e
  deserialize-serialize choke fits space w rest buf e =
      via choke space 5 0 0 [] refl (omega arith) (omega arith) w rest buf e (λ b l. refl)
  deserialize-serialize unchoke fits space w rest buf e =
      via unchoke space 5 0 1 [] refl (omega arith) (omega arith) w rest buf e (λ b l. refl)
  deserialize-serialize interested fits space w rest buf e =
      via interested space 5 0 2 [] refl (omega arith) (omega arith) w rest buf e (λ b l. refl)
  deserialize-serialize not_interested fits space w rest buf e =
      via not_interested space 5 0 3 [] refl (omega arith) (omega arith) w rest buf e (λ b l. refl)
  deserialize-serialize have_all fits space w rest buf e =
      via have_all space 5 0 14 [] refl (omega arith) (omega arith) w rest buf e (λ b l. refl)
  deserialize-serialize have_none fits space w rest buf e =
      via have_none space 5 0 15 [] refl (omega arith) (omega arith) w rest buf e (λ b l. refl)
  deserialize-serialize (port v) fits space w rest buf e =
      via (port v) space 7 2 9 (to_be_bytes 2 v) (length-to_be_bytes 2 v) (omega arith)
        (omega arith) w rest buf e
        (λ b l.
          let (b', eq, left) =
            consume_front 2 (to_be_bytes 2 v) rest b (length-to_be_bytes 2 v) l in
          rw (eq, from_be_bytes-to_be_bytes 2 v fits))
  deserialize-serialize keep_alive fits space w rest buf e = keep_alive_back space w rest buf e
  deserialize-serialize (bitfield b) fits space w rest buf e =
      let small : as_u32 (length b) ≡ length b = omega (arith, fits.1) in
      via (bitfield b) space (5 + length b) (length b) 5 b refl fits.1 (omega arith)
        (ap (λ (n : ℕ). write_message space (5 + length b) n 5 b) (sym small) ∙ w) rest buf e
        (λ buf' left. bitfield_back extension b rest buf' fits.0 left)
  deserialize-serialize (piece p) fits space w rest buf e =
      let total = length-append p.block_0 p.block_1 in
      let small : as_u32 (8 + piece_len p) ≡ 8 + piece_len p = omega (arith, fits.3, total) in
      via (piece p) space (5 + (8 + piece_len p)) (8 + piece_len p) 7 (serialize_piece p)
        (length-serialize_piece p) (omega (arith, fits.3, total)) (omega arith)
        (ap (λ (n : ℕ). write_message space (5 + (8 + piece_len p)) n 7 (serialize_piece p))
            (sym small)
          ∙ w)
        rest buf e (λ buf' left. piece_back extension p rest buf' fits left)
  deserialize-serialize (extended x) fits space w rest buf e = absurd fits
