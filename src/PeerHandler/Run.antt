-- ===== src/PeerHandler/Run.antt =====
-- The events in every order: each keeps the invariant and is handled.
use rust_torrent.Prelude.{
  ℕ, ◌≤◌, ◌*◌, ◌≡◌, refl, sym, ◌∙◌, ap, subst, Bool, true, false, some, [], ◌∷◌, length, arith,
}
use rust_torrent.Prelude.Members.{member}
use rust_torrent.Prelude.HashMap.{find}
use rust_torrent.Outcome.{ok}
use rust_torrent.Lengths.{piece_bitfield_bytes, Lengths}
use rust_torrent.Bits.{Bits}
use rust_torrent.ChunkTracker.{ChunkTracker, FileInfos}
use rust_torrent.ChunkTracker.Valid.{IsValid}
use rust_torrent.ChunkTracker.Start.{FilesFit}
use rust_torrent.PieceTracker.{AcquireRequest}
use rust_torrent.PieceTracker.Acquire.{acquire_piece_lem}
use rust_torrent.PieceTracker.Yields.{IsOffered}
use rust_torrent.PieceTracker.Release.{release_pieces_owned_by_lem}
use rust_torrent.PeerHandler.{acquire_next_piece, on_peer_died}
use rust_torrent.PeerHandler.Progress.{acquire_next_piece-progress}
use rust_torrent.PeerHandler.Receive.{on_received_piece_lem}
use rust_torrent.PeerHandler.System.{
  asked, IsUnasked, Live, Event, acquire, receive, checked, completed, check_failed, died,
  now_checking, drop_piece, handle, IsPermitted, Reach, here, next,
}
use rust_torrent.PeerHandler.Settled.{is_somewhere, IsMoved, IsSettled, moved-IsSettled}
use rust_torrent.PeerHandler.Moves.{FilesFit-len, Acquired-IsMoved, received-IsMoved, died-IsMoved}
use rust_torrent.PeerHandler.Completed.{on_piece_completed-IsCounted, counted-IsMoved}
use rust_torrent.PeerHandler.Verdicts.{
  failed-IsSettled, failed_gone, failed_nowhere, good-IsMoved, bad-IsMoved,
}

module _ {BF : Type 0} ⦃bits : Bits BF⦄ (scale : ℕ → ℕ → ℕ) (files : FileInfos)
    (start : ChunkTracker BF) (valid : IsValid start)
    (unneeded : (p : ℕ)
      → p ≤ start.lengths.last_piece_id
      → bits.get start.queue_pieces p ≡ true
      → bits.get start.have p ≡ false)
    (fit : FilesFit start.queue_pieces files)
    (slots : length files ≤ length start.per_file_bytes) where
  -- An event that is handled.
  abbrev IsHandledBy : Event → Live BF → Type 0
  IsHandledBy e l =
      (l' : Live BF) × (handle scale files e l ≡ ok l')
      × IsSettled start l'
      × ((p : ℕ)
          → member p (asked e) ≡ false
          → is_somewhere l p ≡ false
          → is_somewhere l' p ≡ false)

  -- By what the event changes.
  moved-IsHandledBy :
      (e : Event) (l l' : Live BF)
      → IsSettled start l
      → handle scale files e l ≡ ok l'
      → IsMoved (asked e) l l'
      → IsHandledBy e l
  moved-IsHandledBy e l l' s eq k = (l', eq, moved-IsSettled start l l' s k, k.gone)

  -- The files of the torrent still have their bits and their byte counts.
  pub request_fits :
      (l : Live BF) (req : AcquireRequest)
      → IsSettled start l
      → req.file_infos ≡ files
      → FilesFit l.pieces.chunks.queue_pieces req.file_infos
        × (length req.file_infos ≤ length l.pieces.chunks.per_file_bytes)
  request_fits l req s same_files =
      let same_len : bits.len l.pieces.chunks.queue_pieces ≡ bits.len start.queue_pieces =
        s.apart.chunks_valid.queue_len
        ∙ ap (λ (x : Lengths). piece_bitfield_bytes x * 8) s.lengths_eq
        ∙ sym valid.queue_len in
      (
        subst (FilesFit l.pieces.chunks.queue_pieces) (sym same_files)
            (FilesFit-len start.queue_pieces l.pieces.chunks.queue_pieces files same_len fit),
        omega (arith, slots, ap (λ (f : FileInfos). length f) same_files, s.slots_eq),
      )

  acquired-IsHandledBy :
      (now : ℕ) (choked : Bool) (req : AcquireRequest) (l : Live BF)
      → IsSettled start l
      → IsPermitted scale files l (acquire now choked req)
      → IsHandledBy (acquire now choked req) l
  unfolding handle acquire_next_piece
  acquired-IsHandledBy now true req l s permitted = (l, refl, s, λ p a h. h)
  acquired-IsHandledBy now false req l s permitted =
      let (fit', slots') = request_fits l req s permitted.0 in
      let (pt', r, eq, apart, acquired) =
        acquire_piece_lem s.apart now req scale (λ q m. (permitted.1 q m).0) fit' slots' in
      moved-IsHandledBy (acquire now false req) l (record l { pieces = pt' }) s (rw eq refl)
        (Acquired-IsMoved start l s now req pt' r apart acquired (λ q m. (permitted.1 q m).1))

  handle-IsHandledBy :
      (e : Event) (l : Live BF) → IsSettled start l → IsPermitted scale files l e → IsHandledBy e l
  unfolding handle on_peer_died
  handle-IsHandledBy (acquire now choked req) l s permitted =
      acquired-IsHandledBy now choked req l s permitted
  handle-IsHandledBy (receive now addr requested written m) l s permitted =
      let (pt', r, eq, k) = on_received_piece_lem s.apart now addr requested written m in
      moved-IsHandledBy (receive now addr requested written m) l
        (record l { pieces = pt'; checking = now_checking r l.checking }) s (rw eq refl)
        (received-IsMoved start l s now addr m.index pt' r k)
  handle-IsHandledBy (checked p true) l s permitted =
      let (pt', eq, k) = good-IsMoved start l s p permitted in
      moved-IsHandledBy (checked p true) l
        (record l {
          pieces = pt';
          checking = drop_piece p l.checking;
          completing = p ∷ l.completing;
        })
        s (rw eq refl) k
  handle-IsHandledBy (checked p false) l s permitted =
      let (pt', eq, k) = bad-IsMoved start l s p permitted in
      moved-IsHandledBy (checked p false) l
        (record l { pieces = pt'; checking = drop_piece p l.checking }) s (rw eq refl) k
  handle-IsHandledBy (completed p) l s permitted =
      let (pt', eq, k) =
        on_piece_completed-IsCounted files l.pieces s.apart (omega (arith, slots, s.slots_eq)) p
          (s.completing_there p permitted).0 in
      moved-IsHandledBy (completed p) l
        (record l { pieces = pt'; completing = drop_piece p l.completing }) s (rw eq refl)
        (counted-IsMoved start l s p pt' k)
  handle-IsHandledBy (check_failed p) l s permitted = (
    record l { checking = drop_piece p l.checking; failed = p ∷ l.failed },
    refl,
    failed-IsSettled start l s p,
    λ q a h. failed_gone start l s p q h,
  )
  handle-IsHandledBy (died peer false) l s permitted = (l, refl, s, λ p a h. h)
  handle-IsHandledBy (died peer true) l s permitted =
      let (pt', eq, apart, have_eq, found, queue, only) =
        release_pieces_owned_by_lem s.apart peer in
      moved-IsHandledBy (died peer true) l (record l { pieces = pt' }) s (rw eq refl)
        (died-IsMoved start l s pt' peer apart found queue only)

  -- The torrent before any peer.
  abbrev pub first : Live BF
  first = record {
    pieces = record { chunks = start; inflight = [] };
    checking = [];
    completing = [];
    failed = [];
  }

  first-IsSettled : IsSettled start first
  first-IsSettled = record {
    apart = record {
      chunks_valid = valid;
      unique = tt;
      inflight_apart = λ p info h. cc;
      queue_apart = unneeded;
    };
    lengths_eq = refl;
    slots_eq = refl;
    checking_apart = λ p m. cc;
    completing_there = λ p m. cc;
    kept = λ p queued. rw queued refl;
    there = λ p h. h;
  }

  -- Every state that is reached is settled.
  pub Reach-IsSettled : (l : Live BF) → Reach scale files first l → IsSettled start l
  Reach-IsSettled l here = first-IsSettled
  Reach-IsSettled l (next {l = before} r e permitted eq) =
      let (l', eq', s, gone) = handle-IsHandledBy e before (Reach-IsSettled before r) permitted in
      let same : l' ≡ l = cc (eq', eq) in subst (IsSettled start) same s

  -- A permitted event in a state that is reached is handled.
  pub handle-total :
      (l : Live BF)
      → Reach scale files first l
      → (e : Event) → IsPermitted scale files l e
      → (l' : Live BF) × (handle scale files e l ≡ ok l') × Reach scale files first l'
  handle-total l r e permitted =
      let (l', eq, s, gone) = handle-IsHandledBy e l (Reach-IsSettled l r) permitted in
      (l', eq, next r e permitted eq)

  -- A peer that is not choked gets a piece of an open file.
  pub acquire-progress :
      (l : Live BF)
      → Reach scale files first l
      → (now : ℕ) (req : AcquireRequest) → IsPermitted scale files l (acquire now false req)
      → (id p : ℕ) → member id req.file_priorities ≡ true
      → IsOffered l.pieces.chunks req.file_infos id p
      → req.peer_has_piece p ≡ true
      → (l' : Live BF) × (q : ℕ) × (acquire_next_piece scale now false req l.pieces
          ≡ ok (l'.pieces, some q))
        × (find q l'.pieces.inflight ≡ some (record { peer = req.peer; started = now }))
        × Reach scale files first l'
  unfolding handle
  acquire-progress l r now req permitted id p m o has =
      let s = Reach-IsSettled l r in
      let (fit', slots') = request_fits l req s permitted.0 in
      let (pt', q, eq, given) =
        acquire_next_piece-progress scale s.apart now req (λ k h. (permitted.1 k h).0) fit' slots'
          id p m o has in
      (
        record l { pieces = pt' },
        q,
        eq,
        given,
        next r (acquire now false req) permitted (rw eq refl),
      )

  -- A piece that is nowhere stays so.
  gone-stays :
      (p : ℕ) (l l' : Live BF)
      → IsSettled start l
      → is_somewhere l p ≡ false
      → (r : Reach scale files l l') → IsUnasked scale files p r
      → IsSettled start l' × (is_somewhere l' p ≡ false)
  gone-stays p l l' s h here u = (s, h)
  gone-stays p l l' s h (next {l = before} r e permitted eq) u =
      let (settled, nowhere) = gone-stays p l before s h r u.0 in
      let (l₂, eq₂, s₂, gone) = handle-IsHandledBy e before settled permitted in
      let same : l₂ ≡ l' = cc (eq₂, eq) in
      subst (λ (k : Live BF). IsSettled start k × (is_somewhere k p ≡ false)) same
        (s₂, gone p u.1 nowhere)

  pub failed-lost :
      (p : ℕ) (l l₁ l₂ : Live BF)
      → Reach scale files first l
      → member p l.checking ≡ true
      → handle scale files (check_failed p) l ≡ ok l₁
      → (r : Reach scale files l₁ l₂) → IsUnasked scale files p r
      → is_somewhere l₂ p ≡ false
  unfolding handle
  failed-lost p l l₁ l₂ reach m eq r u =
      let s = Reach-IsSettled l reach in
      let failed_l = record l { checking = drop_piece p l.checking; failed = p ∷ l.failed } in
      let same : failed_l ≡ l₁ = cc eq in
      let s₁ = subst (IsSettled start) same (failed-IsSettled start l s p) in
      let nowhere =
        subst (λ (k : Live BF). is_somewhere k p ≡ false) same (failed_nowhere start l s p m) in
      (gone-stays p l₁ l₂ s₁ nowhere r u).1
