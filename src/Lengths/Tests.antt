-- ===== src/Lengths/Tests.antt =====
-- Runs of the definitions of lengths.rs, and its theorems at a torrent of 40,000 bytes in pieces of
-- 32,768.
use rust_torrent.Prelude.{◌/◌, ◌≤◌, ◌<◌, ◌≡◌, ◌↔◌, refl, get_elem?, some, none, arith}
use rust_torrent.Constants.{max_chunk_size}
use rust_torrent.Lengths.{
  Lengths, ChunkInfo, CurrentPiece, ok, bad_torrent_zero_length, new, compute_current_piece,
  iter_chunk_infos, chunk_range, total_chunks, chunk_info_from_received_data,
}
use rust_torrent.Lengths.Valid.{IsValid, new-IsValid}
use rust_torrent.Lengths.Pieces.{piece_offset-compute_current_piece}
use rust_torrent.Lengths.Ranges.{chunk_range_order}
use rust_torrent.Lengths.Received.{chunk_info_from_received_data_iff}

abbrev pub two_pieces : Lengths
two_pieces = record {
  total_length = 40000;
  piece_length = 32768;
  last_piece_id = 1;
  last_piece_length = 7232;
  chunks_per_piece = 2;
}

pub two_pieces-IsValid : IsValid two_pieces
two_pieces-IsValid = record {
  piece_pos = omega arith;
  piece_bound = omega arith;
  last_pos = omega arith;
  last_le = omega arith;
  covers = refl;
  total_bound = omega arith;
  chunks = refl;
  chunks_bound = omega arith;
}

-- The second chunk of the first piece.
abbrev second_chunk : ChunkInfo
second_chunk = record {
  piece_index = 0;
  chunk_index = 1;
  absolute_index = 1;
  size = 16384;
  offset = 16384;
}

abbrev second_piece : CurrentPiece
second_piece = record { id = 1; piece_remaining = 3000; piece_offset = 1 }

new_example : new 40000 32768 ≡ ok two_pieces
unfolding new
new_example = refl

new_empty : new 0 32768 ≡ bad_torrent_zero_length
unfolding new
new_empty = refl

received_example : chunk_info_from_received_data two_pieces 0 16384 16384 ≡ some second_chunk
unfolding chunk_info_from_received_data
received_example = refl

received_shifted : chunk_info_from_received_data two_pieces 0 16385 16384 ≡ none
unfolding chunk_info_from_received_data
received_shifted = refl

current_piece_example : compute_current_piece two_pieces 7000 30000 ≡ some second_piece
unfolding compute_current_piece
current_piece_example = refl

new-IsValid_example :
    (l : Lengths) × (new 40000 32768 ≡ ok l)
    × (l.total_length ≡ 40000)
    × (l.piece_length ≡ 32768)
    × IsValid l
new-IsValid_example =
    new-IsValid 40000 32768 (omega arith) (omega arith) (omega arith) (omega arith) (omega arith)

piece_offset_example : second_piece.piece_offset ≡ second_piece.id
piece_offset_example =
    piece_offset-compute_current_piece two_pieces 7000 30000 {c = second_piece}
      current_piece_example

chunk_range_order_example :
    ((chunk_range two_pieces 0).start < (chunk_range two_pieces 0).end)
    × ((chunk_range two_pieces 0).end ≤ (chunk_range two_pieces 1).start)
    × ((chunk_range two_pieces 1).start < (chunk_range two_pieces 1).end)
    × ((chunk_range two_pieces 1).end ≤ total_chunks two_pieces)
chunk_range_order_example = chunk_range_order two_pieces-IsValid 0 1 (omega arith) (omega arith)

two_lt-total_chunks : 2 < total_chunks two_pieces
unfolding total_chunks
two_lt-total_chunks = omega arith

received_iff_example :
    (chunk_info_from_received_data two_pieces 0 16384 16384 ≡ some second_chunk) ↔ (
      (get_elem? (iter_chunk_infos two_pieces 0) (16384 / max_chunk_size) ≡ some second_chunk)
      × (second_chunk.offset ≡ 16384)
      × (second_chunk.size ≡ 16384))
received_iff_example =
    chunk_info_from_received_data_iff two_pieces-IsValid 0 16384 16384 second_chunk
