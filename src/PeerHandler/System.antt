-- ===== src/PeerHandler/System.antt =====
-- The handlers of all peers as one system: the tracker that they share, and the pieces that they have in
-- hand between two locks. Each event is what one handler does under its locks, and events come in any order.
use rust_torrent.Prelude.{[], ℕ, ◌≤◌, ◌≡◌, Bool, true, false, not, List, ◌∷◌, ◌==◌, keep_if}
use rust_torrent.Prelude.Members.{member}
use rust_torrent.Outcome.{Outcome, ok, ◌>>=◌}
use rust_torrent.Lengths.{ChunkInfo}
use rust_torrent.Bits.{Bits}
use rust_torrent.ChunkTracker.{FileInfos, PieceMessage}
use rust_torrent.PieceTracker.{PeerHandle, PieceTracker, AcquireRequest}
use rust_torrent.PeerHandler.{
  ReceivedResult, to_check, acquire_next_piece, on_received_piece, mark_checked, on_piece_completed,
  on_peer_died,
}

pub record Live (BF : Type 0) : Type 0 where
  pub pieces : PieceTracker BF
  pub checking : List ℕ
  -- Right pieces, whose handlers are to call `on_piece_completed`.
  pub completing : List ℕ
  -- Pieces whose check failed with an error.
  pub failed : List ℕ

pub data Event : Type 0 where
  acquire : ℕ → Bool → AcquireRequest → Event
  receive : ℕ → PeerHandle → (ChunkInfo → Bool) → Bool → PieceMessage → Event
  checked : ℕ → Bool → Event
  completed : ℕ → Event
  check_failed : ℕ → Event
  died : PeerHandle → Bool → Event

-- A piece that is taken out of the pieces in flight is being checked.
abbrev pub now_checking : ReceivedResult → List ℕ → List ℕ
now_checking (to_check p time) ps = p ∷ ps
now_checking r ps = ps

abbrev pub drop_piece : ℕ → List ℕ → List ℕ
drop_piece p ps = keep_if (λ (q : ℕ). not (q == p)) ps

-- The priority pieces that an event asks for.
abbrev pub asked : Event → List ℕ
asked (acquire now i_am_choked req) = req.priority_pieces
asked e = []

-- A right piece is to be completed.
abbrev pub now_completing : ℕ → Bool → List ℕ → List ℕ
now_completing p true ps = p ∷ ps
now_completing p false ps = ps

module _ {BF : Type 0} ⦃bits : Bits BF⦄ (scale : ℕ → ℕ → ℕ) (files : FileInfos) where
  unfoldable pub handle : Event → Live BF → Outcome (Live BF)
  handle (acquire now i_am_choked req) l =
      acquire_next_piece scale now i_am_choked req l.pieces >>= λ (pt, piece).
      ok (record l { pieces = pt })
  handle (receive now addr requested written m) l =
      on_received_piece now addr requested written m l.pieces >>= λ (pt, r).
      ok (record l { pieces = pt; checking = now_checking r l.checking })
  handle (checked p good) l = mark_checked p good l.pieces >>= λ pt. ok (record l {
    pieces = pt;
    checking = drop_piece p l.checking;
    completing = now_completing p good l.completing;
  })
  handle (completed p) l = on_piece_completed files p l.pieces >>= λ pt.
      ok (record l { pieces = pt; completing = drop_piece p l.completing })
  handle (check_failed p) l =
      ok (record l { checking = drop_piece p l.checking; failed = p ∷ l.failed })
  handle (died peer was_live) l =
      on_peer_died was_live peer l.pieces >>= λ pt. ok (record l { pieces = pt })

  -- The requests are for the files of the torrent, and their priority pieces are not being checked; a
  -- check ends for a piece that is being checked, and only a right piece is completed.
  abbrev pub IsPermitted : Live BF → Event → Type 0
  IsPermitted l (acquire now i_am_choked req) =
      (req.file_infos ≡ files)
      × ((p : ℕ)
          → member p req.priority_pieces ≡ true
          → (p ≤ l.pieces.chunks.lengths.last_piece_id) × (member p l.checking ≡ false))
  IsPermitted l (receive now addr requested written m) = Unit
  IsPermitted l (checked p good) = member p l.checking ≡ true
  IsPermitted l (completed p) = member p l.completing ≡ true
  IsPermitted l (check_failed p) = member p l.checking ≡ true
  IsPermitted l (died peer was_live) = Unit

  pub data Reach (start : Live BF) : Live BF → Type 0 where
    here : Reach start start
    next :
        {l l' : Live BF}
        → Reach start l
        → (e : Event) → IsPermitted l e
        → handle e l ≡ ok l'
        → Reach start l'

  -- No event asks for the piece as a priority piece.
  abbrev pub IsUnasked : ℕ → {start l : Live BF} → Reach start l → Type 0
  IsUnasked p here = Unit
  IsUnasked p (next r e permitted eq) = IsUnasked p r × (member p (asked e) ≡ false)
