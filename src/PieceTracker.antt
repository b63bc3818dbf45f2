-- ===== src/PieceTracker.antt =====
-- crates/librtbit/src/piece_tracker.rs: the pieces that peers are downloading, beside the chunk
-- tracker. `Instant::now()` is the argument `now`, one reading for a call; `scale avg t` stands for
-- `Duration::from_secs_f64(avg.as_secs_f64() * t)`, floating point that is not modelled.
pub mod Steal
pub mod Queue
pub mod Yields
pub mod Apart
pub mod TrySteal
pub mod Acquire
pub mod OnlyFiles
pub mod Release
pub mod Tests
use rust_torrent.Prelude.{
  ℕ, ◌+◌, ◌-◌, ◌≤◌, ◌<◌, Bool, true, false, not, ◌&&◌, Option, none, some, List, [], ◌∷◌, length,
  map, ◌==◌, ltb, leb, if◌then◌else◌, keep_if,
}
use rust_torrent.Prelude.HashMap
use rust_torrent.Outcome.{Outcome, ok, bail, panicked, ◌>>=◌}
use rust_torrent.Lengths.{ValidPieceIndex}
use rust_torrent.Bits.{Bits}
use rust_torrent.FileInfo.{FileInfo}
use rust_torrent.ChunkTracker.{
  ChunkTracker, HaveNeededSelected, ChunkMarkingResult, FileInfos, PieceMessage,
}
use rust_torrent.ChunkTracker.Methods

-- A socket address, as a number.
abbrev pub PeerHandle : Type 0
PeerHandle = ℕ

pub record InflightPiece : Type 0 where
  pub peer : PeerHandle
  pub started : ℕ

pub data AcquireResult : Type 0 where
  reserved : ValidPieceIndex → AcquireResult
  stolen : ValidPieceIndex → PeerHandle → AcquireResult
  none_available : AcquireResult

pub record AcquireRequest : Type 0 where
  pub peer : PeerHandle
  pub peer_avg_time : Option ℕ
  pub priority_pieces : List ValidPieceIndex
  pub file_priorities : List ℕ
  pub file_infos : FileInfos
  pub peer_has_piece : ValidPieceIndex → Bool
  pub can_steal : ValidPieceIndex → Bool

abbrev pub Inflight : Type 0
Inflight = List (ValidPieceIndex × InflightPiece)

pub record PieceTracker (BF : Type 0) : Type 0 where
  pub chunks : ChunkTracker BF
  pub inflight : Inflight

-- `started.elapsed()`, which is 0 for an instant to come
abbrev pub elapsed : ℕ → InflightPiece → ℕ
elapsed now info = now - info.started

-- The entries that pass the three filters of `try_steal`.
unfoldable pub steal_candidates : ℕ → ℕ → AcquireRequest → Inflight → Inflight
steal_candidates now min_elapsed req inflight =
    keep_if
      (λ (p, info).
        not (info.peer == req.peer) && req.peer_has_piece p && leb min_elapsed (elapsed now info))
      inflight

-- `max_by_key`, from the first candidate on: of equal elements the last one.
unfoldable pub slowest_from :
    ℕ → ValidPieceIndex × InflightPiece → Inflight → ValidPieceIndex × InflightPiece
slowest_from now best [] = best
slowest_from now best (entry ∷ entries) =
    slowest_from now (if ltb (elapsed now entry.1) (elapsed now best.1) then best else entry)
      entries

unfoldable pub slowest : ℕ → Inflight → Option (ValidPieceIndex × InflightPiece)
slowest now [] = none
slowest now (entry ∷ entries) = some (slowest_from now entry entries)

unfoldable pub find_queued :
    (ValidPieceIndex → Bool) → List ValidPieceIndex → Option ValidPieceIndex
find_queued peer_has_piece [] = none
find_queued peer_has_piece (piece ∷ queued) =
    if peer_has_piece piece then some piece else find_queued peer_has_piece queued

-- The pieces in flight that a peer owns.
unfoldable pub owned_by : PeerHandle → Inflight → List ValidPieceIndex
owned_by peer inflight = map (λ (p, info). p) (keep_if (λ (p, info). info.peer == peer) inflight)

module _ {BF : Type 0} ⦃bits : Bits BF⦄ where
  unfoldable pub new : ChunkTracker BF → PieceTracker BF
  new chunks = record { chunks = chunks; inflight = [] }

  -- The loop over the keys of `inflight`.
  unfoldable pub requeue_all : List ValidPieceIndex → ChunkTracker BF → Outcome (ChunkTracker BF)
  requeue_all [] chunks = ok chunks
  requeue_all (piece ∷ pieces) chunks = do
    chunks' ← Methods.mark_piece_broken_if_not_have chunks piece
    requeue_all pieces chunks'

  unfoldable pub into_chunks : PieceTracker BF → Outcome (ChunkTracker BF)
  into_chunks pt = requeue_all (map (λ (p, info). p) pt.inflight) pt.chunks

  unfoldable pub reserve_piece :
      ℕ → PieceTracker BF → ValidPieceIndex → PeerHandle → Outcome (PieceTracker BF × AcquireResult)
  reserve_piece now pt piece peer = do
    chunks ← Methods.reserve_needed_piece pt.chunks piece
    ok (
      record {
        chunks = chunks;
        inflight = HashMap.insert piece (record { peer = peer; started = now }) pt.inflight;
      },
      reserved piece,
    )

  -- The end of `try_steal`. The candidate is an entry of `inflight`, so its `get_mut` finds it.
  unfoldable pub steal_entry :
      ℕ
      → PieceTracker BF
      → AcquireRequest
      → Option (ValidPieceIndex × InflightPiece)
      → Option (PieceTracker BF × AcquireResult)
  steal_entry now pt req none = none
  steal_entry now pt req (some (piece, info)) =
      if req.can_steal piece
      then some (
        record pt {
          inflight =
              HashMap.replace_value piece (record { peer = req.peer; started = now }) pt.inflight;
        },
        stolen piece info.peer,
      )
      else none

  unfoldable pub try_steal :
      (ℕ → ℕ → ℕ)
      → ℕ
      → PieceTracker BF
      → AcquireRequest
      → ℕ
      → Option (PieceTracker BF × AcquireResult)
  try_steal scale now pt req threshold = elim req.peer_avg_time [
    | none ↦ none
    | some my_avg ↦
        steal_entry now pt req
          (slowest now (steal_candidates now (scale my_avg threshold) req pt.inflight))
  ]

  -- The first priority piece that is neither there nor in flight and that the peer has.
  unfoldable pub find_priority :
      PieceTracker BF
      → (ValidPieceIndex → Bool)
      → List ValidPieceIndex
      → Outcome (Option ValidPieceIndex)
  find_priority pt peer_has_piece [] = ok none
  find_priority pt peer_has_piece (piece ∷ pieces) =
      Methods.is_piece_have pt.chunks piece >>= λ is_have.
      let rest = find_priority pt peer_has_piece pieces in
      if not is_have && not (HashMap.contains_key piece pt.inflight) && peer_has_piece piece
      then ok (some piece)
      else rest

  unfoldable pub acquire_queued :
      (ℕ → ℕ → ℕ) → ℕ → PieceTracker BF → AcquireRequest → Outcome (PieceTracker BF × AcquireResult)
  acquire_queued scale now pt req =
      Methods.iter_queued_pieces pt.chunks req.file_priorities req.file_infos >>= λ queued.
      elim (find_queued req.peer_has_piece queued) [
        | some piece ↦ reserve_piece now pt piece req.peer
        | none ↦ elim (try_steal scale now pt req 3) [
          | some result ↦ ok result
          | none ↦ ok (pt, none_available)
        ]
      ]

  unfoldable pub acquire_piece :
      (ℕ → ℕ → ℕ) → ℕ → PieceTracker BF → AcquireRequest → Outcome (PieceTracker BF × AcquireResult)
  acquire_piece scale now pt req = elim (try_steal scale now pt req 10) [
    | some result ↦ ok result
    | none ↦ find_priority pt req.peer_has_piece req.priority_pieces >>= λ found. elim found [
      | some piece ↦ reserve_piece now pt piece req.peer
      | none ↦ acquire_queued scale now pt req
    ]
  ]

  unfoldable pub take_inflight : ℕ → PieceTracker BF → ValidPieceIndex → PieceTracker BF × Option ℕ
  take_inflight now pt piece = elim (HashMap.find piece pt.inflight) [
    | none ↦ (pt, none)
    | some info ↦
        (record pt { inflight = HashMap.remove piece pt.inflight }, some (elapsed now info))
  ]

  unfoldable pub mark_piece_hash_ok : PieceTracker BF → ValidPieceIndex → Outcome (PieceTracker BF)
  mark_piece_hash_ok pt piece = do
    chunks ← Methods.mark_piece_downloaded pt.chunks piece
    ok (record pt { chunks = chunks })

  unfoldable pub mark_piece_hash_failed :
      PieceTracker BF → ValidPieceIndex → Outcome (PieceTracker BF)
  mark_piece_hash_failed pt piece = do
    chunks ← Methods.mark_piece_broken_if_not_have pt.chunks piece
    ok (record pt { chunks = chunks })

  unfoldable pub release_loop : PieceTracker BF → List ValidPieceIndex → Outcome (PieceTracker BF)
  release_loop pt [] = ok pt
  release_loop pt (piece ∷ pieces) = do
    chunks ← Methods.mark_piece_broken_if_not_have pt.chunks piece
    release_loop (record { chunks = chunks; inflight = HashMap.remove piece pt.inflight }) pieces

  unfoldable pub release_pieces_owned_by :
      PieceTracker BF → PeerHandle → Outcome (PieceTracker BF × ℕ)
  release_pieces_owned_by pt peer =
      let pieces = owned_by peer pt.inflight in
      do pt' ← release_loop pt pieces; ok (pt', length pieces)

  unfoldable pub is_inflight : PieceTracker BF → ValidPieceIndex → Bool
  is_inflight pt piece = HashMap.contains_key piece pt.inflight

  unfoldable pub mark_chunk_downloaded :
      PieceTracker BF → PieceMessage → Outcome (PieceTracker BF × Option ChunkMarkingResult)
  mark_chunk_downloaded pt piece = do
    r ← Methods.mark_chunk_downloaded pt.chunks piece
    ok (record pt { chunks = r.0 }, r.1)

  unfoldable pub update_only_files :
      PieceTracker BF → FileInfos → (ℕ → Bool) → Outcome (PieceTracker BF × HaveNeededSelected)
  update_only_files pt file_infos new_only_files = do
    r ← Methods.update_only_files pt.chunks file_infos new_only_files
    ok (record pt { chunks = r.0 }, r.1)

  unfoldable pub update_file_have_on_piece_completed :
      PieceTracker BF → ValidPieceIndex → ℕ → FileInfo → Outcome (PieceTracker BF × ℕ)
  update_file_have_on_piece_completed pt piece_id file_id fi = do
    r ← Methods.update_file_have_on_piece_completed pt.chunks piece_id file_id fi
    ok (record pt { chunks = r.0 }, r.1)
