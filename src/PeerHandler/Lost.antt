-- ===== src/PeerHandler/Lost.antt =====
-- A piece whose hash is being checked is taken again.
use rust_torrent.Prelude.{
  ℕ, ◌≡◌, refl, ◌∙◌, true, false, none, some, List, ◌∷◌, ==_refl, lt→ltb, arith,
}
use rust_torrent.Prelude.Members.{member}
use rust_torrent.Prelude.HashMap.{contains_key, find, find-insert}
use rust_torrent.Outcome.{ok}
use rust_torrent.Bits.{Bits}
use rust_torrent.ChunkTracker.{ChunkTracker}
use rust_torrent.ChunkTracker.Methods.{is_piece_have}
use rust_torrent.ChunkTracker.Valid.{piece_bits}
use rust_torrent.ChunkTracker.Marks.{mark_piece_downloaded_lem}
use rust_torrent.PieceTracker.{
  InflightPiece, PieceTracker, AcquireRequest, reserved, acquire_piece, try_steal, find_priority,
  mark_piece_hash_ok,
}
use rust_torrent.PieceTracker.Apart.{after_reserve, after_reserve-IsApart, reserve_piece-eq}
use rust_torrent.PeerHandler.{acquire_next_piece, mark_checked}
use rust_torrent.PeerHandler.System.{Live}
use rust_torrent.PeerHandler.Settled.{IsSettled}

module _ {BF : Type 0} ⦃bits : Bits BF⦄ {start : ChunkTracker BF} {l : Live BF}
    (s : IsSettled start l) (p : ℕ) (m : member p l.checking ≡ true) where
  -- In a settled state, a peer that is not choked, has no average time yet, and has the piece,
  -- takes a piece whose hash is being checked if that is the first of the priority pieces. If the
  -- hash is then right, the piece is both in flight and there.
  pub acquire_next_piece-twice :
      (scale : ℕ → ℕ → ℕ) (now : ℕ) (req : AcquireRequest) (ps : List ℕ)
      → req.peer_avg_time ≡ none
      → req.priority_pieces ≡ p ∷ ps
      → req.peer_has_piece p ≡ true
      → (pt' : PieceTracker BF) × (acquire_next_piece scale now false req l.pieces
          ≡ ok (pt', some p))
        × (pt'' : PieceTracker BF) × (mark_checked p true pt' ≡ ok pt'')
        × (find p pt''.inflight ≡ some (record { peer = req.peer; started = now }))
        × (bits.get pt''.chunks.have p ≡ true)
  unfolding acquire_next_piece acquire_piece try_steal find_priority is_piece_have mark_checked
      mark_piece_hash_ok
  acquire_next_piece-twice scale now req ps slow first has =
      let (le, unqueued, missing, absent) = s.checking_apart p m in
      let a = s.apart in
      let mine : InflightPiece = record { peer = req.peer; started = now } in
      let inside =
        lt→ltb p (bits.len l.pieces.chunks.have)
          (omega (arith, le, a.chunks_valid.have_len, piece_bits a.chunks_valid.lengths_valid)) in
      let free : contains_key p l.pieces.inflight ≡ false = rw (contains_key, absent) refl in
      let pt' = after_reserve a p le mine in
      let found : find_priority l.pieces req.peer_has_piece req.priority_pieces ≡ ok (some p) =
        rw (first, find_priority, is_piece_have, inside, missing, free, has) refl in
      let acquired : acquire_piece scale now l.pieces req ≡ ok (pt', reserved p) =
        rw (acquire_piece, try_steal, slow, found) (reserve_piece-eq a p le now req.peer) in
      let apart = after_reserve-IsApart a p le mine missing in
      let (ct, eq, valid, only, have) = mark_piece_downloaded_lem apart.chunks_valid p le in
      (
        pt',
        rw (acquire_next_piece, acquired) refl,
        record pt' { chunks = ct },
        rw eq refl,
        find-insert p p mine l.pieces.inflight ∙ rw (==_refl p) refl,
        have p ∙ rw (==_refl p) refl,
      )
