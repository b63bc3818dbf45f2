-- ===== src/Lengths.antt =====
-- crates/librtbit-core/src/lengths.rs: how a torrent's bytes are cut into pieces and chunks.
-- A `ValidPieceIndex` is its number; a `Lengths` value comes from `new`, so its piece length is
-- not 0 and no division below panics.
pub mod Valid
pub mod Pieces
pub mod Chunks
pub mod Ranges
pub mod Received
pub mod Files
pub mod Tests
use rust_torrent.Prelude.{
  ℕ, zero, suc, ◌+◌, ◌-◌, ◌*◌, ◌/◌, ◌%◌, min, max, Bool, true, false, Option, none, some, List, [],
  ◌∷◌, map, ◌==◌, ltb, if◌then◌else◌, ◌>>=◌, u32_mod, as_u32, add_u32, sub_u32, mul_u32, add_u64,
  sub_u64, mul_u64, div_ceil, range_from,
}
use rust_torrent.Constants.{max_chunk_size}

abbrev pub last_element_size : ℕ → ℕ → ℕ
last_element_size total_length piece_length =
    let rem = total_length % piece_length in if rem == 0 then piece_length else rem

abbrev pub ValidPieceIndex : Type 0
ValidPieceIndex = ℕ

pub record PieceInfo : Type 0 where
  pub piece_index : ValidPieceIndex
  pub len : ℕ

pub record ChunkInfo : Type 0 where
  pub piece_index : ValidPieceIndex
  pub chunk_index : ℕ
  pub absolute_index : ℕ
  pub size : ℕ
  pub offset : ℕ

pub record Lengths : Type 0 where
  pub total_length : ℕ
  pub piece_length : ℕ
  pub last_piece_id : ℕ
  pub last_piece_length : ℕ
  pub chunks_per_piece : ℕ

pub data NewResult : Type 0 where
  ok : Lengths → NewResult
  bad_torrent_zero_length : NewResult
  -- `div_ceil` by zero
  panicked : NewResult

unfoldable pub new : ℕ → ℕ → NewResult
new total_length piece_length =
    if total_length == 0
    then bad_torrent_zero_length
    else if piece_length == 0
    then panicked
    else ok (record {
      total_length = total_length;
      piece_length = piece_length;
      last_piece_id = sub_u32 (as_u32 (div_ceil total_length piece_length)) 1;
      last_piece_length = as_u32 (last_element_size total_length piece_length);
      chunks_per_piece = as_u32 (div_ceil piece_length max_chunk_size);
    })

unfoldable pub validate_piece_index : Lengths → ℕ → Option ValidPieceIndex
validate_piece_index l index = if ltb l.last_piece_id index then none else some index

unfoldable pub total_pieces : Lengths → ℕ
total_pieces l = add_u32 l.last_piece_id 1

unfoldable pub piece_length : Lengths → ValidPieceIndex → ℕ
piece_length l index = if index == l.last_piece_id then l.last_piece_length else l.piece_length

unfoldable pub chunks_per_piece : Lengths → ValidPieceIndex → ℕ
chunks_per_piece l index =
    if index == l.last_piece_id
    then div_ceil l.last_piece_length max_chunk_size
    else l.chunks_per_piece

unfoldable pub total_chunks : Lengths → ℕ
unfolding chunks_per_piece
total_chunks l =
    add_u32 (mul_u32 l.last_piece_id l.chunks_per_piece) (chunks_per_piece l l.last_piece_id)

unfoldable pub piece_bitfield_bytes : Lengths → ℕ
unfolding total_pieces
piece_bitfield_bytes l = div_ceil (total_pieces l) 8

unfoldable pub chunk_bitfield_bytes : Lengths → ℕ
unfolding total_chunks
chunk_bitfield_bytes l = div_ceil (total_chunks l) 8

unfoldable pub piece_offset : Lengths → ValidPieceIndex → ℕ
piece_offset l index = mul_u64 index l.piece_length

unfoldable pub chunk_absolute_offset : Lengths → ChunkInfo → ℕ
unfolding piece_offset
chunk_absolute_offset l c = add_u64 (piece_offset l c.piece_index) c.offset

unfoldable pub iter_piece_infos : Lengths → List PieceInfo
unfolding total_pieces
iter_piece_infos l =
    map
      (λ idx. record {
        piece_index = idx;
        len = if idx == l.last_piece_id then l.last_piece_length else l.piece_length;
      })
      (range_from 0 (total_pieces l))

-- `start..end`
pub record Range : Type 0 where
  pub start : ℕ
  pub end : ℕ

unfoldable pub iter_pieces_within_offset : Lengths → ℕ → ℕ → Range
iter_pieces_within_offset l offset len =
    let offset_bytes = min offset l.total_length in
    let end_bytes = min (add_u64 offset_bytes len) l.total_length in
    let start_piece_id = as_u32 (offset_bytes / l.piece_length) in
    record {
      start = start_piece_id;
      end =
          if end_bytes == offset_bytes
          then start_piece_id
          else as_u32 (div_ceil end_bytes l.piece_length);
    }

-- The `scan` of `iter_chunk_infos`, on fuel: `remaining` falls at each round.
unfoldable pub chunk_infos_from : ℕ → ValidPieceIndex → ℕ → ℕ → ℕ → ℕ → List ChunkInfo
chunk_infos_from zero index absolute_offset remaining offset idx = []
chunk_infos_from (suc fuel) index absolute_offset remaining offset idx =
    let s = min remaining max_chunk_size in
    let rest =
      chunk_infos_from fuel index absolute_offset (remaining - s) (add_u32 offset s)
        (add_u32 idx 1) in
    if remaining == 0
    then []
    else (record {
      piece_index = index;
      chunk_index = idx;
      absolute_index = add_u32 absolute_offset idx;
      size = s;
      offset = offset;
    })
      ∷ rest

unfoldable pub iter_chunk_infos : Lengths → ValidPieceIndex → List ChunkInfo
unfolding chunk_infos_from piece_length
iter_chunk_infos l index =
    let remaining = piece_length l index in
    chunk_infos_from (remaining / max_chunk_size + 1) index (mul_u32 index l.chunks_per_piece)
      remaining 0 0

unfoldable pub chunk_offset_in_piece : Lengths → ValidPieceIndex → ℕ → Option ℕ
unfolding chunks_per_piece
chunk_offset_in_piece l piece_index chunk_index =
    if ltb chunk_index (chunks_per_piece l piece_index)
    then some (mul_u32 chunk_index max_chunk_size)
    else none

unfoldable pub chunk_size : Lengths → ValidPieceIndex → ℕ → Option ℕ
unfolding piece_length
chunk_size l piece_index chunk_index =
    let len = piece_length l piece_index in
    let last_chunk_id = sub_u32 (div_ceil len max_chunk_size) 1 in
    if ltb chunk_index last_chunk_id
    then some max_chunk_size
    else if chunk_index == last_chunk_id
    then some (last_element_size len max_chunk_size)
    else none

unfoldable pub chunk_info_from_received_data : Lengths → ValidPieceIndex → ℕ → ℕ → Option ChunkInfo
unfolding chunk_size chunk_offset_in_piece
chunk_info_from_received_data l piece_index begin size =
    let index = begin / max_chunk_size in
    do
      expected_chunk_size ← chunk_size l piece_index index
      offset ← chunk_offset_in_piece l piece_index index
      let info = some (record {
        piece_index = piece_index;
        chunk_index = index;
        absolute_index = add_u32 (mul_u32 l.chunks_per_piece piece_index) index;
        size = size;
        offset = offset;
      })
      if offset == begin then (if expected_chunk_size == size then info else none) else none

unfoldable pub chunk_range : Lengths → ValidPieceIndex → Range
unfolding chunks_per_piece
chunk_range l index =
    let start = mul_u32 index l.chunks_per_piece in
    record { start = start; end = add_u32 start (chunks_per_piece l index) }

-- `end.saturating_sub(offset)` is the subtraction of ℕ.
unfoldable pub size_of_piece_in_file : Lengths → ℕ → ℕ → ℕ → ℕ
size_of_piece_in_file l piece_id file_offset file_len =
    let piece_start = mul_u64 piece_id l.piece_length in
    let piece_end = add_u64 piece_start l.piece_length in
    let file_end = add_u64 file_offset file_len in
    min file_end piece_end - max file_offset piece_start

pub record CurrentPiece : Type 0 where
  pub id : ValidPieceIndex
  pub piece_remaining : ℕ
  pub piece_offset : ℕ

-- `u32::try_from`
abbrev pub try_into_u32 : ℕ → Option ℕ
try_into_u32 n = if ltb n u32_mod then some n else none

unfoldable pub compute_current_piece : Lengths → ℕ → ℕ → Option CurrentPiece
unfolding validate_piece_index piece_length
compute_current_piece l file_pos file_torrent_abs_offset =
    let dpl = l.piece_length in
    let abs_pos = add_u64 file_torrent_abs_offset file_pos in
    do
      piece_id ← try_into_u32 (abs_pos / dpl)
      valid_id ← validate_piece_index l piece_id
      let piece_len = piece_length l valid_id
      offset ← try_into_u32 (abs_pos / dpl)
      remaining ← try_into_u32 (sub_u64 piece_len (abs_pos % dpl))
      some (record { id = valid_id; piece_remaining = remaining; piece_offset = offset })
