-- ===== src/PeerHandler/Progress.antt =====
-- A peer gets a piece while there is one for it.
use rust_torrent.Prelude.{ℕ, ◌≤◌, ◌≡◌, refl, ◌∙◌, ap, true, false, some, length, ==_refl}
use rust_torrent.Prelude.Members.{member}
use rust_torrent.Prelude.HashMap.{find, find-insert}
use rust_torrent.Outcome.{ok}
use rust_torrent.Bits.{Bits}
use rust_torrent.ChunkTracker.Start.{FilesFit}
use rust_torrent.PieceTracker.{
  PieceTracker, AcquireRequest, AcquireResult, reserved, stolen, none_available, acquire_piece,
}
use rust_torrent.PieceTracker.Apart.{IsApart}
use rust_torrent.PieceTracker.TrySteal.{Acquired}
use rust_torrent.PieceTracker.Acquire.{acquire_piece_lem}
use rust_torrent.PieceTracker.Yields.{IsOffered, iter_queued_pieces-yields}
use rust_torrent.PeerHandler.{acquire_next_piece}

module _ {BF : Type 0} ⦃bits : Bits BF⦄ (scale : ℕ → ℕ → ℕ) {pt : PieceTracker BF} (a : IsApart pt)
    (now : ℕ) (req : AcquireRequest)
    (small : (q : ℕ) → member q req.priority_pieces ≡ true → q ≤ pt.chunks.lengths.last_piece_id)
    (fit : FilesFit pt.chunks.queue_pieces req.file_infos)
    (slots : length req.file_infos ≤ length pt.chunks.per_file_bytes) where
  -- The piece that the peer gets is in flight for it.
  abbrev pub Given : PieceTracker BF → ℕ → Type 0
  Given pt' q = find q pt'.inflight ≡ some (record { peer = req.peer; started = now })

  module _ (id p : ℕ) (m : member id req.file_priorities ≡ true)
      (o : IsOffered pt.chunks req.file_infos id p) (has : req.peer_has_piece p ≡ true) where
    Acquired-Given :
        (pt' : PieceTracker BF) (r : AcquireResult)
        → acquire_piece scale now pt req ≡ ok (pt', r)
        → Acquired now pt req pt' r
        → (q : ℕ) × (acquire_next_piece scale now false req pt ≡ ok (pt', some q)) × Given pt' q
    unfolding acquire_next_piece
    Acquired-Given pt' (reserved q) eq acquired = (
      q,
      rw (acquire_next_piece, eq) refl,
      ap (find q) (acquired.4)
          ∙ find-insert q q (record { peer = req.peer; started = now }) pt.inflight
          ∙ rw (==_refl q) refl,
    )
    Acquired-Given pt' (stolen q from) eq acquired =
        let (info, old, mine, other, peer_has, can, chunks, found) = acquired in
        (q, rw (acquire_next_piece, eq) refl, found q ∙ rw (==_refl q) refl)
    Acquired-Given pt' none_available eq acquired =
        let (same, skipped, (queued, listed, nothing)) = acquired in
        let (out, listed', has_all) =
          iter_queued_pieces-yields a.chunks_valid.shaped req.file_infos req.file_priorities fit
            slots in
        let lists_eq : queued ≡ out = cc (listed, listed') in
        cc (nothing p (ap (member p) lists_eq ∙ has_all id p m o), has)

    pub acquire_next_piece-progress :
        (pt' : PieceTracker BF) × (q : ℕ) × (acquire_next_piece scale now false req pt
          ≡ ok (pt', some q))
        × Given pt' q
    acquire_next_piece-progress =
        let (pt', r, eq, apart, acquired) = acquire_piece_lem a now req scale small fit slots in
        let (q, got, given) = Acquired-Given pt' r eq acquired in (pt', q, got, given)
