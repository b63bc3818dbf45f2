-- ===== src/Wire/Preamble.antt =====
-- The header that crates/librtbit-peer-protocol/src/lib.rs writes in front of a block that is read from
-- the disk, against the message that holds the block.
use rust_torrent.Prelude.{
  ℕ, ◌+◌, ◌≤◌, ◌<◌, ◌≡◌, sym, ◌∙◌, ap, false, List, [], ◌∷◌, ◌++◌, length, ltb, add_u32, as_u32,
  u32_mod, arith,
}
use mathlib.Core.List.{append_assoc}
use rust_torrent.Bytes.{to_be_bytes}
use rust_torrent.Lengths.{ChunkInfo}
use rust_torrent.Wire.{
  ok, piece, Extension, msgid_piece, serialize, serialize_piece, serialize_piece_preamble,
  write_message, write_preamble,
}

module _ {Ext : Type 0} (extension : Extension Ext) where
  -- For a chunk whose size is that of a block in two parts and fits the length prefix with its nine
  -- bytes, and a buffer with room for it, `serialize` of the `Piece` with the chunk's piece, its
  -- offset and the block writes what `serialize_piece_preamble` of the chunk writes and then the
  -- block, and returns the sum of the counts.
  pub serialize-serialize_piece_preamble :
      (c : ChunkInfo) (b₀ b₁ : List ℕ) (space : ℕ)
      → length b₀ + length b₁ ≡ c.size
      → c.size + 9 < u32_mod
      → c.size + 13 ≤ space
      → serialize extension
          (piece (record { index = c.piece_index; begin = c.offset; block_0 = b₀; block_1 = b₁ }))
          space
        ≡ ok (
          (serialize_piece_preamble c).0 + (length b₀ + length b₁),
          (serialize_piece_preamble c).1 ++ (b₀ ++ b₁),
        )
  unfolding serialize serialize_piece serialize_piece_preamble write_message write_preamble
  serialize-serialize_piece_preamble c b₀ b₁ space total small room =
      let fits : ltb space (5 + (8 + (length b₀ + length b₁))) ≡ false =
        ground (arith, total, room) in
      let prefix : add_u32 (as_u32 (8 + (length b₀ + length b₁))) 1 ≡ add_u32 9 c.size =
        omega (arith, total, small) in
      let sum : 5 + (8 + (length b₀ + length b₁)) ≡ 13 + (length b₀ + length b₁) = omega arith in
      let parts : (to_be_bytes 4 (add_u32 9 c.size) ++ (msgid_piece ∷ []))
            ++ (to_be_bytes 4 c.piece_index ++ (to_be_bytes 4 c.offset ++ (b₀ ++ b₁)))
          ≡ (to_be_bytes 4 (add_u32 9 c.size)
              ++ (msgid_piece ∷ (to_be_bytes 4 c.piece_index ++ to_be_bytes 4 c.offset)))
            ++ (b₀ ++ b₁) =
        append_assoc (to_be_bytes 4 (add_u32 9 c.size)) (msgid_piece ∷ [])
          (to_be_bytes 4 c.piece_index ++ (to_be_bytes 4 c.offset ++ (b₀ ++ b₁)))
        ∙ ap (λ (t : List ℕ). to_be_bytes 4 (add_u32 9 c.size) ++ (msgid_piece ∷ t))
            (sym (append_assoc (to_be_bytes 4 c.piece_index) (to_be_bytes 4 c.offset) (b₀ ++ b₁)))
        ∙ sym (
            append_assoc (to_be_bytes 4 (add_u32 9 c.size))
              (msgid_piece ∷ (to_be_bytes 4 c.piece_index ++ to_be_bytes 4 c.offset)) (b₀ ++ b₁)) in
      rw (fits, prefix, sum, parts)
