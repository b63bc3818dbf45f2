-- ===== src/PieceTracker/Apart.antt =====
-- The invariant of the piece tracker, that a piece is in one state at most, and the operations on one
-- piece.
use rust_torrent.Prelude.{
  ℕ, ◌≤◌, ◌≡◌, ◌⊎◌, refl, sym, ◌∙◌, ap, subst, true, false, not, ◌&&◌, Bool-cases, inl, inr, none,
  some, ◌==◌, ==_refl, ==→eq, if◌then◌else◌, arith,
}
use rust_torrent.Prelude.HashMap.{
  find, insert, remove, UniqueKeys, find-insert, find-remove, insert-UniqueKeys, remove-UniqueKeys,
}
use rust_torrent.Outcome.{ok}
use rust_torrent.Lengths.{Lengths}
use rust_torrent.Bits.{Bits}
use rust_torrent.ChunkTracker.{ChunkTracker}
use rust_torrent.ChunkTracker.Valid.{IsValid}
use rust_torrent.ChunkTracker.Marks.{
  reserve_needed_piece-eq, reserve_needed_piece-IsShaped, queue_in, mark_piece_downloaded_lem,
  mark_piece_broken_lem,
}
use rust_torrent.ChunkTracker.Methods.{mark_piece_broken_if_not_have}
use rust_torrent.PieceTracker.{
  InflightPiece, PieceTracker, Inflight, reserved, elapsed, reserve_piece, take_inflight,
  mark_piece_hash_ok, mark_piece_hash_failed,
}

inserted_entry :
    (p q : ℕ) (new i : InflightPiece) (m : Inflight)
    → find q (insert p new m) ≡ some i
    → (p ≡ q) ⊎ (((q == p) ≡ false) × (find q m ≡ some i))
inserted_entry p q new i m h =
    let found : find q (insert p new m) ≡ (if p == q then some new else find q m) =
      find-insert p q new m in
    elim (Bool-cases (p == q)) [
      | inl t ↦ inl (==→eq p q t)
      | inr f ↦ inr (ground arith, sym (rw f at found) ∙ h)
    ]

removed_entry :
    (p q : ℕ) (i : InflightPiece) (m : Inflight)
    → find q (remove p m) ≡ some i
    → ((q == p) ≡ false) × (find q m ≡ some i)
removed_entry p q i m h =
    let found : find q (remove p m) ≡ (if p == q then none else find q m) = find-remove p q m in
    elim (Bool-cases (p == q)) [
      | inl t ↦ cc (h, rw t at found)
      | inr f ↦ (ground arith, sym (rw f at found) ∙ h)
    ]

other_piece :
    (p q : ℕ) {i : InflightPiece} (m : Inflight)
    → find p m ≡ none
    → find q m ≡ some i
    → (q == p) ≡ false
other_piece p q m absent h = elim (Bool-cases (q == p)) [
  | inl t ↦ cc (absent, h, ap (λ (k : ℕ). find k m) (==→eq q p t))
  | inr f ↦ f
]

module _ {BF : Type 0} ⦃bits : Bits BF⦄ where
  -- A piece is queued, in flight or there, and not two of these.
  pub record IsApart (pt : PieceTracker BF) : Type 0 where
    pub chunks_valid : IsValid pt.chunks
    pub unique : UniqueKeys pt.inflight
    pub inflight_apart :
        (p : ℕ) (info : InflightPiece)
        → find p pt.inflight ≡ some info
        → (p ≤ pt.chunks.lengths.last_piece_id)
          × (bits.get pt.chunks.queue_pieces p ≡ false)
          × (bits.get pt.chunks.have p ≡ false)
    pub queue_apart :
        (p : ℕ)
        → p ≤ pt.chunks.lengths.last_piece_id
        → bits.get pt.chunks.queue_pieces p ≡ true
        → bits.get pt.chunks.have p ≡ false

  module _ {pt : PieceTracker BF} (a : IsApart pt) (p : ℕ)
      (le : p ≤ pt.chunks.lengths.last_piece_id) where
    -- The tracker after a reservation.
    abbrev pub after_reserve : InflightPiece → PieceTracker BF
    after_reserve info = record {
      chunks = record pt.chunks { queue_pieces = bits.set pt.chunks.queue_pieces p false };
      inflight = insert p info pt.inflight;
    }

    pub get-reserved :
        (q : ℕ) (info : InflightPiece)
        → bits.get (after_reserve info).chunks.queue_pieces q
          ≡ (if q == p then false else bits.get pt.chunks.queue_pieces q)
    get-reserved q info =
        bits.get-set pt.chunks.queue_pieces p false q (queue_in a.chunks_valid.shaped p le)

    pub reserve_piece-eq :
        (now : ℕ) (peer : ℕ)
        → reserve_piece now pt p peer
          ≡ ok (after_reserve (record { peer = peer; started = now }), reserved p)
    unfolding reserve_piece
    reserve_piece-eq now peer = rw (reserve_needed_piece-eq a.chunks_valid.shaped p le)

    pub after_reserve-IsApart :
        (info : InflightPiece) → bits.get pt.chunks.have p ≡ false → IsApart (after_reserve info)
    after_reserve-IsApart info missing = record {
      chunks_valid = record {
        shaped = reserve_needed_piece-IsShaped a.chunks_valid.shaped p le;
        synced = a.chunks_valid.synced;
      };
      unique = insert-UniqueKeys p info pt.inflight a.unique;
      inflight_apart = λ q i h. elim (inserted_entry p q info i pt.inflight h) [
        | inl e ↦
            subst
              (λ (k : ℕ).
                (k ≤ pt.chunks.lengths.last_piece_id)
                × (bits.get (after_reserve info).chunks.queue_pieces k ≡ false)
                × (bits.get pt.chunks.have k ≡ false))
              e (le, get-reserved p info ∙ rw (==_refl p), missing)
        | inr (ne, old) ↦
            let r = a.inflight_apart q i old in (r.0, get-reserved q info ∙ rw ne r.1, r.2)
      ];
      queue_apart = λ q h queued. a.queue_apart q h (ground (arith, get-reserved q info));
    }

  module _ {pt : PieceTracker BF} (a : IsApart pt) (p : ℕ) where
    -- `take_inflight` takes the piece out of the pieces in flight.
    abbrev pub without : PieceTracker BF
    without = record pt { inflight = remove p pt.inflight }

    pub without-IsApart : IsApart without
    without-IsApart = record {
      chunks_valid = a.chunks_valid;
      unique = remove-UniqueKeys p pt.inflight a.unique;
      inflight_apart = λ q i h. a.inflight_apart q i (removed_entry p q i pt.inflight h).1;
      queue_apart = a.queue_apart;
    }

    -- In a piece tracker that satisfies the invariant, for a piece in flight `take_inflight`
    -- answers with the time since its start, keeps the invariant and the chunk tracker, and takes
    -- this piece and no other out of the pieces in flight; the piece is neither queued nor there.
    pub take_inflight_lem :
        (now : ℕ) {info : InflightPiece}
        → find p pt.inflight ≡ some info
        → (pt' : PieceTracker BF) × (take_inflight now pt p ≡ (pt', some (elapsed now info)))
          × IsApart pt'
          × (pt'.chunks ≡ pt.chunks)
          × ((q : ℕ) → find q pt'.inflight ≡ (if p == q then none else find q pt.inflight))
          × (bits.get pt.chunks.queue_pieces p ≡ false)
          × (bits.get pt.chunks.have p ≡ false)
    unfolding take_inflight
    take_inflight_lem now {info} h = (
      without,
      rw (take_inflight, h),
      without-IsApart,
      refl,
      (λ q. find-remove p q pt.inflight),
      (a.inflight_apart p info h).1,
      (a.inflight_apart p info h).2,
    )

  module _ {pt : PieceTracker BF} (a : IsApart pt) (p : ℕ)
      (le : p ≤ pt.chunks.lengths.last_piece_id) (absent : find p pt.inflight ≡ none) where
    -- A piece that is not in flight can be queued again.
    pub requeue_lem :
        (ct : ChunkTracker BF) × (mark_piece_broken_if_not_have pt.chunks p ≡ ok ct)
        × IsApart (record pt { chunks = ct })
        × (ct.lengths ≡ pt.chunks.lengths)
        × (ct.have ≡ pt.chunks.have)
        × ((q : ℕ)
            → bits.get ct.queue_pieces q ≡ (
                if q == p && not (bits.get pt.chunks.have p)
                then true
                else bits.get pt.chunks.queue_pieces q))
        × (ct ≡ record pt.chunks { queue_pieces = ct.queue_pieces; chunk_status = ct.chunk_status })
    requeue_lem =
        let (ct, eq, valid, only, queue, chunks) = mark_piece_broken_lem a.chunks_valid p le in
        let lengths_eq = ap (λ (t : ChunkTracker BF). t.lengths) only in
        let have_eq = ap (λ (t : ChunkTracker BF). t.have) only in
        let last = ap (λ (l : Lengths). l.last_piece_id) lengths_eq in
        let have_at = λ (q : ℕ). ap (λ (b : BF). bits.get b q) have_eq in
        (
          ct,
          eq,
          record {
            chunks_valid = valid;
            unique = a.unique;
            inflight_apart = λ q i h.
                let r = a.inflight_apart q i h in
                let ne = other_piece p q pt.inflight absent h in
                (omega (arith, r.0, last), queue q ∙ rw ne r.1, have_at q ∙ r.2);
            queue_apart = λ q h queued.
                have_at q ∙ still_missing q (omega (arith, h, last)) (sym (queue q) ∙ queued);
          },
          lengths_eq,
          have_eq,
          queue,
          only,
        )
      where
        still_missing :
            (q : ℕ)
            → q ≤ pt.chunks.lengths.last_piece_id
            → (if q == p && not (bits.get pt.chunks.have p)
                then true
                else bits.get pt.chunks.queue_pieces q)
              ≡ true
            → bits.get pt.chunks.have q ≡ false
        still_missing q h queued = elim (Bool-cases (q == p)) [
          | inl t ↦ elim (Bool-cases (bits.get pt.chunks.have p)) [
            | inl there ↦ a.queue_apart q h (ground arith)
            | inr missing ↦ ap (bits.get pt.chunks.have) (==→eq q p t) ∙ missing
          ]
          | inr f ↦ a.queue_apart q h (ground arith)
        ]

    -- In a piece tracker that satisfies the invariant, at a piece of the torrent that is not in
    -- flight, `mark_piece_hash_failed` returns, keeps the invariant and the pieces in flight, and
    -- queues the piece if it is not there, with all others left in the queue as they were.
    pub mark_piece_hash_failed_lem :
        (pt' : PieceTracker BF) × (mark_piece_hash_failed pt p ≡ ok pt')
        × IsApart pt'
        × (pt'.inflight ≡ pt.inflight)
        × ((q : ℕ)
            → bits.get pt'.chunks.queue_pieces q ≡ (
                if q == p && not (bits.get pt.chunks.have p)
                then true
                else bits.get pt.chunks.queue_pieces q))
        × (pt'.chunks ≡ record pt.chunks {
          queue_pieces = pt'.chunks.queue_pieces;
          chunk_status = pt'.chunks.chunk_status;
        })
    unfolding mark_piece_hash_failed
    mark_piece_hash_failed_lem =
        let (ct, eq, apart, lengths_eq, have_eq, queue, only) = requeue_lem in
        (record pt { chunks = ct }, rw eq, apart, refl, queue, only)

    -- In a piece tracker that satisfies the invariant, at a piece of the torrent that is neither in
    -- flight nor queued, `mark_piece_hash_ok` returns, adds the piece to those that are there and
    -- no other, keeps the invariant, and leaves the pieces in flight as they are.
    pub mark_piece_hash_ok_lem :
        bits.get pt.chunks.queue_pieces p ≡ false
        → (pt' : PieceTracker BF) × (mark_piece_hash_ok pt p ≡ ok pt')
          × IsApart pt'
          × (pt'.inflight ≡ pt.inflight)
          × ((q : ℕ)
              → bits.get pt'.chunks.have q ≡ (if q == p then true else bits.get pt.chunks.have q))
          × (pt'.chunks ≡ record pt.chunks { have = pt'.chunks.have; hns = pt'.chunks.hns })
    unfolding mark_piece_hash_ok
    mark_piece_hash_ok_lem unqueued =
        let (ct, eq, valid, only, have) = mark_piece_downloaded_lem a.chunks_valid p le in
        let lengths_eq = ap (λ (t : ChunkTracker BF). t.lengths) only in
        let queue_eq = ap (λ (t : ChunkTracker BF). t.queue_pieces) only in
        let last = ap (λ (l : Lengths). l.last_piece_id) lengths_eq in
        let queue_at = λ (q : ℕ). ap (λ (b : BF). bits.get b q) queue_eq in
        (
          record pt { chunks = ct },
          rw eq,
          record {
            chunks_valid = valid;
            unique = a.unique;
            inflight_apart = λ q i h.
                let r = a.inflight_apart q i h in
                let ne = other_piece p q pt.inflight absent h in
                (omega (arith, r.0, last), queue_at q ∙ r.1, have q ∙ rw ne r.2);
            queue_apart = λ q h queued.
                have q ∙ not_this q (omega (arith, h, last)) (sym (queue_at q) ∙ queued);
          },
          refl,
          have,
          only,
        )
      where
        not_this :
            (q : ℕ)
            → q ≤ pt.chunks.lengths.last_piece_id
            → bits.get pt.chunks.queue_pieces q ≡ true
            → (if q == p then true else bits.get pt.chunks.have q) ≡ false
        not_this q h queued = elim (Bool-cases (q == p)) [
          | inl t ↦ cc (queued, unqueued, ap (bits.get pt.chunks.queue_pieces) (==→eq q p t))
          | inr f ↦ rw f (a.queue_apart q h queued)
        ]
