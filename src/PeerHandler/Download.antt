-- ===== src/PeerHandler/Download.antt =====
-- From a new torrent on: the trackers are built by their constructors, and then the handlers run.
use rust_torrent.Prelude.{
  some, ℕ, ◌*◌, ◌≤◌, ◌≡◌, refl, sym, ◌∙◌, ap, subst, true, false, not, ◌&&◌, ◌||◌, Bool-cases, inl,
  inr, [], length, arith,
}
use rust_torrent.Prelude.HashMap.{find}
use rust_torrent.Outcome.{ok}
use rust_torrent.Lengths.{Lengths, piece_bitfield_bytes}
use rust_torrent.Lengths.Valid
use rust_torrent.Bits.{Bits}
use rust_torrent.ChunkTracker
use rust_torrent.ChunkTracker.{ChunkTracker, FileInfos}
use rust_torrent.ChunkTracker.Valid.{IsValid}
use rust_torrent.ChunkTracker.Start.{FilesFit, new_lem}
use rust_torrent.Prelude.Members.{member}
use rust_torrent.PieceTracker
use rust_torrent.PieceTracker.{AcquireRequest}
use rust_torrent.PieceTracker.Yields.{IsOffered}
use rust_torrent.PeerHandler.{acquire_next_piece}
use rust_torrent.PeerHandler.System.{
  check_failed, IsUnasked, acquire, Live, Event, handle, IsPermitted, Reach,
}
use rust_torrent.PeerHandler.Settled.{IsSettled, is_somewhere}
use rust_torrent.PeerHandler.Moves.{FilesFit-len}
use rust_torrent.PeerHandler.Run.{Reach-IsSettled, acquire-progress, handle-total, failed-lost}

-- A torrent whose files have their bits, and what is there and selected of it.
module _ {BF : Type 0} ⦃bits : Bits BF⦄ (scale : ℕ → ℕ → ℕ) {l : Lengths} (v : Valid.IsValid l)
    (have selected : BF) (files : FileInfos) (have_len : bits.len have ≡ piece_bitfield_bytes l * 8)
    (selected_len : bits.len selected ≡ piece_bitfield_bytes l * 8)
    (fit : FilesFit have files) where
  abbrev pub start_live : ChunkTracker BF → Live BF
  start_live ct = record {
    pieces = PieceTracker.new ct;
    checking = [];
    completing = [];
    failed = [];
  }

  -- A selected piece is there at the start, or it is queued.
  selected_somewhere :
      (ct : ChunkTracker BF) (live : Live BF) (p : ℕ)
      → bits.get ct.queue_pieces p ≡ (not (bits.get have p) && bits.get selected p)
      → ct.have ≡ have
      → IsSettled ct live
      → bits.get selected p ≡ true
      → (is_somewhere live p || member p live.failed) ≡ true
  selected_somewhere ct live p queue have_eq s sel = elim (Bool-cases (bits.get have p)) [
    | inl there ↦
        let still : bits.get live.pieces.chunks.have p ≡ true =
          s.there p (ap (λ (b : BF). bits.get b p) have_eq ∙ there) in
        rw still (ground arith)
    | inr missing ↦ s.kept p (queue ∙ rw (missing, sel) refl)
  ]

  module _ (ct : ChunkTracker BF) (built : ChunkTracker.new have selected l files ≡ ok ct) where
    -- What `new` gives.
    record IsBuilt : Type 0 where
      valid : IsValid ct
      have_eq : ct.have ≡ have
      unneeded :
          (p : ℕ)
          → p ≤ ct.lengths.last_piece_id
          → bits.get ct.queue_pieces p ≡ true
          → bits.get ct.have p ≡ false
      fits : FilesFit ct.queue_pieces files
      slots : length files ≤ length ct.per_file_bytes
      queue :
          (p : ℕ)
          → p ≤ l.last_piece_id
          → bits.get ct.queue_pieces p ≡ (not (bits.get have p) && bits.get selected p)

    new-IsBuilt : IsBuilt
    new-IsBuilt =
        let (ct', eq, valid, have_eq, selected_eq, lengths_eq, slots, queue, chunks) =
          new_lem v have selected files have_len selected_len fit in
        let same : ct' ≡ ct = cc (eq, built) in
        let queued =
          subst
            (λ (t : ChunkTracker BF).
              (p : ℕ)
              → p ≤ l.last_piece_id
              → bits.get t.queue_pieces p ≡ (not (bits.get have p) && bits.get selected p))
            same queue in
        let have_eq' = subst (λ (t : ChunkTracker BF). t.have ≡ have) same have_eq in
        let lengths_eq' = subst (λ (t : ChunkTracker BF). t.lengths ≡ l) same lengths_eq in
        let valid' = subst (λ (t : ChunkTracker BF). IsValid t) same valid in
        record {
          valid = valid';
          have_eq = have_eq';
          unneeded = λ p le q.
              ap (λ (b : BF). bits.get b p) have_eq'
              ∙ ground (
                arith,
                queued p (omega (arith, le, ap (λ (x : Lengths). x.last_piece_id) lengths_eq')),
                q,
              );
          fits =
              FilesFit-len have ct.queue_pieces files
                (valid'.queue_len
                  ∙ ap (λ (x : Lengths). piece_bitfield_bytes x * 8) lengths_eq'
                  ∙ sym have_len)
                fit;
          slots = omega (arith, slots, ap (λ (t : ChunkTracker BF). length t.per_file_bytes) same);
          queue = queued;
        }

    -- Start from the trackers that `ChunkTracker::new` and `PieceTracker::new` build for a valid
    -- torrent, with bit arrays of the right sizes and files whose pieces have bits. After any
    -- sequence of events of the handlers (an answer to `acquire_next_piece`, a received block, the
    -- verdict of a hash check, `on_piece_completed` for a right piece, a hash check that fails with
    -- an error, or the death of a peer, which was live or not) the invariant of the piece tracker
    -- holds, a piece whose hash is being checked is neither queued nor in flight nor there, every
    -- selected piece is queued, in flight, being checked or there, or its check has failed with an
    -- error, and the lengths and the number of the byte counts of the files are as at the start.
    -- Priority pieces are pieces of the torrent whose hashes are not being checked, the files are
    -- those of the torrent, a check ends only for a piece that is being checked, and only a piece
    -- that was found right is completed.
    pub download-IsSettled :
        (live : Live BF)
        → Reach scale files (start_live ct) live
        → IsSettled ct live
          × ((p : ℕ)
              → p ≤ l.last_piece_id
              → bits.get selected p ≡ true
              → (is_somewhere live p || member p live.failed) ≡ true)
    unfolding PieceTracker.new
    download-IsSettled live r =
        let b = new-IsBuilt in
        let s = Reach-IsSettled scale files ct b.valid b.unneeded b.fits b.slots live r in
        (s, λ p le sel. selected_somewhere ct live p (b.queue p le) b.have_eq s sel)

    -- Start from the trackers that `ChunkTracker::new` and `PieceTracker::new` build for a valid
    -- torrent, with bit arrays of the right sizes and files whose pieces have bits. In a state that
    -- is reached from there by events of the handlers (an answer to `acquire_next_piece`, a
    -- received block, the verdict of a hash check, `on_piece_completed` for a right piece, a hash
    -- check that fails with an error, or the death of a peer, which was live or not), every further
    -- event is handled without an error of the trackers or a panic, with the byte counts of the
    -- files that `on_piece_completed` updates by their numbers, and leads to a state that is
    -- reached. Priority pieces are pieces of the torrent whose hashes are not being checked, the
    -- files are those of the torrent, a check ends only for a piece that is being checked, and only
    -- a piece that was found right is completed.
    pub download-handled :
        (live : Live BF)
        → Reach scale files (start_live ct) live
        → (e : Event) → IsPermitted scale files live e
        → (live' : Live BF) × (handle scale files e live ≡ ok live')
          × Reach scale files (start_live ct) live'
    unfolding PieceTracker.new
    download-handled live r e permitted =
        let b = new-IsBuilt in
        handle-total scale files ct b.valid b.unneeded b.fits b.slots live r e permitted

    -- In a state that is reached by events of the handlers from the trackers that the constructors
    -- build, let a peer that is not choked ask for a piece, with priority pieces of the torrent
    -- whose hashes are not being checked and the files of the torrent, and have a piece that is
    -- queued and lies in a file of its list of files, of which some bytes are missing by their
    -- count. Then `acquire_next_piece` gives it a piece, not necessarily that one, which is in
    -- flight for the peer in the state that follows, and that state is reached.
    pub download-progress :
        (live : Live BF)
        → Reach scale files (start_live ct) live
        → (now : ℕ) (req : AcquireRequest) → IsPermitted scale files live (acquire now false req)
        → (id p : ℕ) → member id req.file_priorities ≡ true
        → IsOffered live.pieces.chunks req.file_infos id p
        → req.peer_has_piece p ≡ true
        → (live' : Live BF) × (q : ℕ) × (acquire_next_piece scale now false req live.pieces
            ≡ ok (live'.pieces, some q))
          × (find q live'.pieces.inflight ≡ some (record { peer = req.peer; started = now }))
          × Reach scale files (start_live ct) live'
    unfolding PieceTracker.new
    download-progress live r now req permitted id p m o has =
        let b = new-IsBuilt in
        acquire-progress scale files ct b.valid b.unneeded b.fits b.slots live r now req permitted
          id p m o has

    -- In a state that is reached by events of the handlers from the trackers that the constructors
    -- build, let the check of a piece fail with an error. Then, whatever events follow, the piece
    -- is neither queued nor in flight nor being checked nor there, as long as no request has it
    -- among its priority pieces.
    pub download-lost :
        (p : ℕ) (live live₁ live₂ : Live BF)
        → Reach scale files (start_live ct) live
        → member p live.checking ≡ true
        → handle scale files (check_failed p) live ≡ ok live₁
        → (r : Reach scale files live₁ live₂) → IsUnasked scale files p r
        → is_somewhere live₂ p ≡ false
    unfolding PieceTracker.new
    download-lost p live live₁ live₂ reach m eq r u =
        let b = new-IsBuilt in
        failed-lost scale files ct b.valid b.unneeded b.fits b.slots p live live₁ live₂ reach m eq r
          u
