-- ===== src/PeerHandler.antt =====
-- crates/librtbit/src/torrent_state/live/peer_handler.rs: how the handlers of the peers drive the piece
-- tracker that they share. A function is what runs under one lock, or under the lock of one piece.
pub mod Receive
pub mod System
pub mod Settled
pub mod Moves
pub mod Verdicts
pub mod Completed
pub mod Progress
pub mod Run
pub mod Download
pub mod Lost
pub mod Tests
use rust_torrent.Prelude.{
  ℕ, Bool, true, false, Option, none, some, ltb, leb, ◌==◌, ◌+◌, ◌&&◌, List, [], ◌∷◌, if◌then◌else◌,
  u32_mod,
}
use rust_torrent.Prelude.HashMap
use rust_torrent.Outcome.{Outcome, ok, ◌>>=◌}
use rust_torrent.Lengths.{
  ValidPieceIndex, ChunkInfo, validate_piece_index, chunk_info_from_received_data,
}
use rust_torrent.Bits.{Bits, index_bit}
use rust_torrent.FileInfo.{FileInfo}
use rust_torrent.ChunkTracker.{
  FileInfos, PieceMessage, not_completed, previously_completed, completed,
}
use rust_torrent.ChunkTracker.Methods.{is_finished}
use rust_torrent.PieceTracker.{
  PeerHandle, PieceTracker, AcquireRequest, AcquireResult, reserved, stolen, none_available,
  acquire_piece, mark_chunk_downloaded, take_inflight, mark_piece_hash_ok, mark_piece_hash_failed,
  release_pieces_owned_by, update_file_have_on_piece_completed,
}

-- What becomes of a received block. The first six drop the peer.
pub data ReceivedResult : Type 0 where
  invalid_piece invalid_chunk oversized not_requested bogus_data : ReceivedResult
  write_failed not_inflight done_by_other incomplete untracked : ReceivedResult
  stolen_by : PeerHandle → ReceivedResult
  to_check : ValidPieceIndex → ℕ → ReceivedResult

-- The piece that an answer of the tracker gives to the peer.
abbrev pub piece_of : AcquireResult → Option ValidPieceIndex
piece_of (reserved piece) = some piece
piece_of (stolen piece from) = some piece
piece_of none_available = none

-- `piece_range.contains`
abbrev pub contains : ValidPieceIndex → FileInfo → Bool
contains id fi = leb fi.piece_range.start id && ltb id fi.piece_range.end

-- `take_while` of the files that are numbered from `idx` on.
abbrev pub take_files : ValidPieceIndex → ℕ → FileInfos → List (ℕ × FileInfo)
take_files id idx [] = []
take_files id idx (fi ∷ fis) =
    if contains id fi then (idx, fi) ∷ take_files id (idx + 1) fis else []

-- The same behind `skip_while`.
abbrev pub files_from : ValidPieceIndex → ℕ → FileInfos → List (ℕ × FileInfo)
files_from id idx [] = []
files_from id idx (fi ∷ fis) =
    if contains id fi then take_files id idx (fi ∷ fis) else files_from id (idx + 1) fis

-- The numbered files of the piece in a row.
abbrev pub files_of : ValidPieceIndex → FileInfos → List (ℕ × FileInfo)
files_of id file_infos = files_from id 0 file_infos

module _ {BF : Type 0} ⦃bits : Bits BF⦄ where
  unfoldable pub acquire_next_piece :
      (ℕ → ℕ → ℕ)
      → ℕ
      → Bool
      → AcquireRequest
      → PieceTracker BF
      → Outcome (PieceTracker BF × Option ValidPieceIndex)
  acquire_next_piece scale now i_am_choked req pt =
      if i_am_choked
      then ok (pt, none)
      else acquire_piece scale now pt req >>= λ (pt', result). ok (pt', piece_of result)

  -- The `match` on the time of the download.
  abbrev pub taken : ValidPieceIndex → PieceTracker BF × Option ℕ → PieceTracker BF × ReceivedResult
  taken piece (pt, none) = (pt, untracked)
  taken piece (pt, some time) = (pt, to_check piece time)

  -- The second lock of `write_to_disk`, after the block is written.
  unfoldable pub mark_written :
      ℕ → PieceMessage → ChunkInfo → PieceTracker BF → Outcome (PieceTracker BF × ReceivedResult)
  mark_written now piece info pt = mark_chunk_downloaded pt piece >>= λ (pt', marking).
      elim marking [
        | none ↦ ok (pt', bogus_data)
        | some not_completed ↦ ok (pt', incomplete)
        | some previously_completed ↦ ok (pt', done_by_other)
        | some completed ↦ ok (taken info.piece_index (take_inflight now pt' info.piece_index))
      ]

  -- `write_to_disk` up to the check of the hash. The lock of the piece keeps others from stealing it
  -- meanwhile. `written` is whether `write_chunk` succeeds.
  unfoldable pub write_to_disk :
      ℕ
      → PeerHandle
      → Bool
      → PieceMessage
      → ChunkInfo
      → PieceTracker BF
      → Outcome (PieceTracker BF × ReceivedResult)
  write_to_disk now addr written piece info pt = elim (HashMap.find info.piece_index pt.inflight) [
    | none ↦ ok (pt, not_inflight)
    | some inflight ↦
        let marked = mark_written now piece info pt in
        if inflight.peer == addr
        then (if written then marked else ok (pt, write_failed))
        else ok (pt, stolen_by inflight.peer)
  ]

  -- `requested` is `inflight_requests.remove`: whether the peer was asked for the block.
  unfoldable pub on_received_piece :
      ℕ
      → PeerHandle
      → (ChunkInfo → Bool)
      → Bool
      → PieceMessage
      → PieceTracker BF
      → Outcome (PieceTracker BF × ReceivedResult)
  on_received_piece now addr requested written piece pt =
      elim (validate_piece_index pt.chunks.lengths piece.index) [
        | none ↦ ok (pt, invalid_piece)
        | some index ↦
            if ltb piece.len u32_mod
            then elim (chunk_info_from_received_data pt.chunks.lengths index piece.begin
                piece.len) [
                  | none ↦ ok (pt, invalid_chunk)
                  | some info ↦
                      let result = write_to_disk now addr written piece info pt in
                      if requested info then result else ok (pt, not_requested)
                ]
            else ok (pt, oversized)
      ]

  -- What is done to the trackers under the next lock, by the answer of `check_piece`. A handler whose
  -- piece is right then calls `on_piece_completed`, which takes the lock again and is a function of its
  -- own below. If `check_piece` fails, its error is returned, and nothing is done to the trackers.
  unfoldable pub mark_checked : ValidPieceIndex → Bool → PieceTracker BF → Outcome (PieceTracker BF)
  mark_checked piece true pt = mark_piece_hash_ok pt piece
  mark_checked piece false pt = mark_piece_hash_failed pt piece

  -- The body of the loop over the files of the piece.
  unfoldable pub update_files :
      ValidPieceIndex → List (ℕ × FileInfo) → PieceTracker BF → Outcome (PieceTracker BF)
  update_files id [] pt = ok pt
  update_files id ((idx, file_info) ∷ files) pt =
      update_file_have_on_piece_completed pt id idx file_info >>= λ (pt', remaining).
      update_files id files pt'

  -- `on_piece_completed` of live/mod.rs: the byte counts of the files of the piece, and the test whether
  -- the torrent is finished.
  unfoldable pub on_piece_completed :
      FileInfos → ValidPieceIndex → PieceTracker BF → Outcome (PieceTracker BF)
  on_piece_completed file_infos id pt = update_files id (files_of id file_infos) pt >>= λ pt'.
      if is_finished pt'.chunks
      then (index_bit pt'.chunks.selected id >>= λ selected. ok pt')
      else ok pt'

  -- `on_peer_died`, by whether the state that is taken from the peer is `Live`.
  unfoldable pub on_peer_died : Bool → PeerHandle → PieceTracker BF → Outcome (PieceTracker BF)
  on_peer_died was_live addr pt =
      if was_live then (release_pieces_owned_by pt addr >>= λ (pt', released). ok pt') else ok pt
