-- ===== src/ChunkTracker.antt =====
-- crates/librtbit/src/chunk_tracker.rs: which pieces and chunks of a torrent are there, queued and
-- selected. A method that changes the tracker returns the new one beside its result, and `panicked`
-- for an index out of bounds.
pub mod Bytes
pub mod Valid
pub mod Marks
pub mod Received
pub mod Select
pub mod OnlyFiles
pub mod Start
pub mod Methods
pub mod Tests
use rust_torrent.Prelude.{
  ℕ, zero, suc, ◌+◌, ◌-◌, ◌*◌, ◌≤◌, ◌<◌, Bool, true, false, not, ◌&&◌, ◌||◌, Option, none, some,
  List, [], ◌∷◌, length, replicate, get_elem?, set, ◌==◌, ltb, leb, if◌then◌else◌, add_u64, sub_u64,
  mul_u64, mul_u32,
}
use rust_torrent.Outcome.{Outcome, ok, bail, panicked, ◌>>=◌, unwrap, or_bail}
use rust_torrent.Lengths.{
  Lengths, Range, PieceInfo, ChunkInfo, ValidPieceIndex, iter_piece_infos, total_pieces,
  piece_length, chunks_per_piece, chunk_range, chunk_bitfield_bytes, piece_bitfield_bytes,
  size_of_piece_in_file, validate_piece_index, chunk_info_from_received_data,
}
use rust_torrent.Bits.{Bits, index_bit, get_bit, set_bit, fill_range, all_range}
use rust_torrent.FileInfo.{FileInfo, range_list}

pub record HaveNeededSelected : Type 0 where
  pub have_bytes : ℕ
  pub needed_bytes : ℕ
  pub selected_bytes : ℕ

unfoldable pub progress : HaveNeededSelected → ℕ
progress h = sub_u64 h.selected_bytes h.needed_bytes

unfoldable pub finished : HaveNeededSelected → Bool
finished h = h.needed_bytes == 0

pub record ChunkTracker (BF : Type 0) : Type 0 where
  pub queue_pieces : BF
  pub chunk_status : BF
  pub have : BF
  pub selected : BF
  pub per_file_bytes : List ℕ
  pub lengths : Lengths
  pub hns : HaveNeededSelected

pub data ChunkMarkingResult : Type 0 where
  previously_completed not_completed completed : ChunkMarkingResult

abbrev pub FileInfos : Type 0
FileInfos = List FileInfo

-- A `Piece` message, as far as the tracker reads it: where its block belongs, and how long it is.
pub record PieceMessage : Type 0 where
  pub index : ℕ
  pub begin : ℕ
  pub len : ℕ

-- `len * (flag as u64)`
abbrev pub counted : ℕ → Bool → ℕ
counted len flag = mul_u64 len (if flag then 1 else 0)

module _ {BF : Type 0} ⦃bits : Bits BF⦄ where
  unfoldable pub have_status_loop : Lengths → BF → List PieceInfo → BF → Outcome BF
  have_status_loop l have_pieces [] chunk_bf = ok chunk_bf
  have_status_loop l have_pieces (piece ∷ pieces) chunk_bf =
      let chunks = chunks_per_piece l piece.piece_index in
      let offset = mul_u32 l.chunks_per_piece piece.piece_index in
      do
        is_have ← index_bit have_pieces piece.piece_index
        chunk_bf' ←
            if is_have
            then or_bail
                (fill_range chunk_bf (record { start = offset; end = add_u64 offset chunks }) true)
            else ok chunk_bf
        have_status_loop l have_pieces pieces chunk_bf'

  unfoldable pub compute_chunk_have_status : Lengths → BF → Outcome BF
  compute_chunk_have_status l have_pieces =
      if ltb (bits.len have_pieces) (total_pieces l)
      then bail
      else have_status_loop l have_pieces (iter_piece_infos l) (bits.zeros (chunk_bitfield_bytes l))

  unfoldable pub compute_queued_pieces : BF → BF → Outcome BF
  compute_queued_pieces have_pieces selected_pieces =
      if bits.len have_pieces == bits.len selected_pieces
      then ok (bits.and_not have_pieces selected_pieces)
      else bail

  -- `if let Some(r) = bf.get_mut(…) { r.fill(…) }`
  abbrev pub or_unchanged : BF → Option BF → BF
  or_unchanged bf none = bf
  or_unchanged bf (some b) = b

  -- The loop over the files with their numbers; `idx` is the number of the first.
  unfoldable pub select_loop : (ℕ → Bool) → ℕ → FileInfos → BF → BF
  select_loop only_files idx [] bf = bf
  select_loop only_files idx (fi ∷ fis) bf =
      let filled = or_unchanged bf (fill_range bf fi.piece_range true) in
      select_loop only_files (idx + 1) fis (if not fi.padding && only_files idx then filled else bf)

  unfoldable pub compute_selected_pieces : Lengths → (ℕ → Bool) → FileInfos → BF
  compute_selected_pieces l only_files file_infos =
      select_loop only_files 0 file_infos (bits.zeros (piece_bitfield_bytes l))

  -- The sum over the pieces of a file that are there.
  unfoldable pub file_have_bytes : Lengths → BF → FileInfo → List ℕ → Outcome ℕ
  file_have_bytes l have fi [] = ok 0
  file_have_bytes l have fi (id ∷ ids) = do
    is_have ← index_bit have id
    rest ← file_have_bytes l have fi ids
    ok (
        if is_have
        then add_u64 (size_of_piece_in_file l id fi.offset_in_torrent fi.len) rest
        else rest)

  unfoldable pub recalculate_per_file_bytes : Lengths → BF → List ℕ → FileInfos → Outcome (List ℕ)
  recalculate_per_file_bytes l have [] fis = ok []
  recalculate_per_file_bytes l have (slot ∷ slots) [] = ok (slot ∷ slots)
  recalculate_per_file_bytes l have (slot ∷ slots) (fi ∷ fis) = do
    sum ← file_have_bytes l have fi (range_list fi.piece_range)
    rest ← recalculate_per_file_bytes l have slots fis
    ok (sum ∷ rest)

  unfoldable pub hns_loop :
      BF → BF → List PieceInfo → HaveNeededSelected → Outcome HaveNeededSelected
  hns_loop have selected [] hns = ok hns
  hns_loop have selected (piece ∷ pieces) hns = do
    is_have ← index_bit have piece.piece_index
    is_selected ← index_bit selected piece.piece_index
    let is_needed = is_selected && not is_have
    hns_loop have selected pieces (record {
      have_bytes = add_u64 hns.have_bytes (counted piece.len is_have);
      needed_bytes = add_u64 hns.needed_bytes (counted piece.len is_needed);
      selected_bytes = add_u64 hns.selected_bytes (counted piece.len is_selected);
    })

  unfoldable pub calc_hns : Lengths → BF → BF → Outcome HaveNeededSelected
  calc_hns l have selected =
      hns_loop have selected (iter_piece_infos l)
        (record { have_bytes = 0; needed_bytes = 0; selected_bytes = 0 })

  unfoldable pub new : BF → BF → Lengths → FileInfos → Outcome (ChunkTracker BF)
  new have_pieces selected_pieces lengths file_infos = do
    needed_pieces ← compute_queued_pieces have_pieces selected_pieces
    chunk_status ← compute_chunk_have_status lengths have_pieces
    per_file ←
        recalculate_per_file_bytes lengths have_pieces (replicate (length file_infos) 0) file_infos
    hns ← calc_hns lengths have_pieces selected_pieces
    ok (record {
      queue_pieces = needed_pieces;
      chunk_status = chunk_status;
      have = have_pieces;
      selected = selected_pieces;
      per_file_bytes = per_file;
      lengths = lengths;
      hns = hns;
    })
