-- ===== src/PeerHandler/Moves.antt =====
-- What the events of the handlers change.
use rust_torrent.Prelude.{
  length, ℕ, List, Option-cases, ◌≡◌, refl, sym, ◌∙◌, ap, subst, true, false, ◌||◌, Bool-cases, inl,
  inr, none, some, [], ◌∷◌, ◌==◌, ==_refl, ==→eq, if◌then◌else◌, arith,
}
use rust_torrent.Prelude.Members.{member}
use rust_torrent.Prelude.HashMap.{find}
use rust_torrent.Bits.{Bits}
use rust_torrent.ChunkTracker.{ChunkTracker, FileInfos}
use rust_torrent.ChunkTracker.Start.{FilesFit}
use rust_torrent.PieceTracker.{
  InflightPiece, PieceTracker, AcquireRequest, AcquireResult, reserved, stolen, none_available,
}
use rust_torrent.PieceTracker.Apart.{IsApart}
use rust_torrent.PieceTracker.TrySteal.{Acquired}
use rust_torrent.PieceTracker.Release.{Requeued, is_owned}
use rust_torrent.PeerHandler.{
  ReceivedResult, invalid_piece, invalid_chunk, oversized, not_requested, bogus_data, write_failed,
  not_inflight, done_by_other, incomplete, untracked, stolen_by, to_check,
}
use rust_torrent.PeerHandler.Receive.{IsHandled}
use rust_torrent.PeerHandler.System.{Live, now_checking}
use rust_torrent.PeerHandler.Settled.{
  is_somewhere, still-IsCompleting, IsSettled, IsMoved, IsChecking, stays-IsMoved, reserved-IsMoved,
  stolen-IsMoved,
}

module _ {BF : Type 0} ⦃bits : Bits BF⦄ where
  pub FilesFit-len :
      (b b' : BF) (fis : FileInfos) → bits.len b' ≡ bits.len b → FilesFit b fis → FilesFit b' fis
  FilesFit-len b b' [] e f = tt
  FilesFit-len b b' (fi ∷ fis) e f = (omega (arith, f.0, e), FilesFit-len b b' fis e f.1)

  module _ (start : ChunkTracker BF) (l : Live BF) (s : IsSettled start l) where
    pub unmoved-IsMoved :
        (asked : List ℕ) (pt' : PieceTracker BF)
        → pt' ≡ l.pieces
        → IsMoved asked l (record l { pieces = pt' })
    unmoved-IsMoved asked pt' same =
        subst (λ (t : PieceTracker BF). IsMoved asked l (record l { pieces = t })) (sym same)
          (stays-IsMoved start l s asked)

    pub Acquired-IsMoved :
        (now : ℕ) (req : AcquireRequest) (pt' : PieceTracker BF) (r : AcquireResult)
        → IsApart pt'
        → Acquired now l.pieces req pt' r
        → ((q : ℕ) → member q req.priority_pieces ≡ true → member q l.checking ≡ false)
        → IsMoved req.priority_pieces l (record l { pieces = pt' })
    Acquired-IsMoved now req pt' (reserved p) apart a free =
        reserved-IsMoved start l s now req pt' p apart a free
    Acquired-IsMoved now req pt' (stolen p from) apart a free =
        stolen-IsMoved start l s now req pt' p from apart a
    Acquired-IsMoved now req pt' none_available apart a free =
        unmoved-IsMoved req.priority_pieces pt' a.0

    -- A piece that is in flight is not being checked.
    not_checking :
        (p : ℕ) {info : InflightPiece}
        → find p l.pieces.inflight ≡ some info
        → member p l.checking ≡ false
    not_checking p found = elim (Bool-cases (member p l.checking)) [
      | inl t ↦ cc (found, (s.checking_apart p t).3)
      | inr f ↦ f
    ]

    -- The pieces in flight do not change.
    same-IsMoved :
        (pt' : PieceTracker BF)
        → IsApart pt'
        → pt'.chunks ≡ record l.pieces.chunks { chunk_status = pt'.chunks.chunk_status }
        → pt'.inflight ≡ l.pieces.inflight
        → IsMoved [] l (record l { pieces = pt' })
    same-IsMoved pt' apart only inflight =
        let queue_at = λ (q : ℕ). ap (λ (t : ChunkTracker BF). bits.get t.queue_pieces q) only in
        let have_at = λ (q : ℕ). ap (λ (t : ChunkTracker BF). bits.get t.have q) only in
        let found_at = λ (q : ℕ). ap (find q) inflight in
        record {
          apart = apart;
          lengths_eq = ap (λ (t : ChunkTracker BF). t.lengths) only;
          failed_eq = refl;
          slots_eq = ap (λ (t : ChunkTracker BF). length t.per_file_bytes) only;
          completing_there =
              still-IsCompleting l pt' (ap (λ (t : ChunkTracker BF). t.lengths) only)
                (λ q h. have_at q ∙ h) s.completing_there;
          checking_apart = λ q m.
              let c = s.checking_apart q m in
              (
                omega (arith, c.0, ap (λ (t : ChunkTracker BF). t.lengths.last_piece_id) only),
                queue_at q ∙ c.1,
                have_at q ∙ c.2,
                found_at q ∙ c.3,
              );
          kept = λ q h. rw (found_at q, queue_at q, have_at q) h;
          gone = λ q a h. rw (found_at q, queue_at q, have_at q) h;
          there = λ q h. have_at q ∙ h;
        }

    pub received-IsMoved :
        (now addr i : ℕ) (pt' : PieceTracker BF) (r : ReceivedResult)
        → IsHandled now addr i l.pieces pt' r
        → IsMoved [] l (record l { pieces = pt'; checking = now_checking r l.checking })
    received-IsMoved now addr i pt' (to_check p time) k =
        let (at, info, found, mine, time_eq, others, before, after) = k.told in
        let queue_at = λ (q : ℕ). ap (λ (t : ChunkTracker BF). bits.get t.queue_pieces q) k.only in
        let have_at = λ (q : ℕ). ap (λ (t : ChunkTracker BF). bits.get t.have q) k.only in
        let last = ap (λ (t : ChunkTracker BF). t.lengths.last_piece_id) k.only in
        record {
          apart = k.apart;
          lengths_eq = ap (λ (t : ChunkTracker BF). t.lengths) k.only;
          failed_eq = refl;
          slots_eq = ap (λ (t : ChunkTracker BF). length t.per_file_bytes) k.only;
          completing_there =
              still-IsCompleting l pt' (ap (λ (t : ChunkTracker BF). t.lengths) k.only)
                (λ q h. have_at q ∙ h) s.completing_there;
          checking_apart = λ q m. elim (Bool-cases (p == q)) [
            | inl t ↦
                let c = s.apart.inflight_apart p info found in
                subst (IsChecking (record l { pieces = pt'; checking = p ∷ l.checking }))
                  (==→eq p q t)
                  (
                    omega (arith, c.0, last),
                    queue_at p ∙ c.1,
                    have_at p ∙ c.2,
                    others p ∙ rw (==_refl p) refl,
                  )
            | inr f ↦
                let c = s.checking_apart q (ground (arith, m, f)) in
                (omega (arith, c.0, last), queue_at q ∙ c.1, have_at q ∙ c.2, others q ∙ rw f (c.3))
          ];
          kept = λ q h. elim (Bool-cases (p == q)) [
            | inl t ↦ ground (arith, t)
            | inr f ↦
                let same : find q pt'.inflight ≡ find q l.pieces.inflight = others q ∙ rw f refl in
                let other : (q == p) ≡ false = ground (arith, f) in
                rw (same, queue_at q, have_at q, other) h
          ];
          gone = λ q a h. elim (Bool-cases (p == q)) [
            | inl t ↦
                let found' = ap (λ (j : ℕ). find j l.pieces.inflight) (sym (==→eq p q t)) ∙ found in
                let here : is_somewhere l q ≡ true = rw found' (ground arith) in cc (here, h)
            | inr f ↦
                let same : find q pt'.inflight ≡ find q l.pieces.inflight = others q ∙ rw f refl in
                let other : (q == p) ≡ false = ground (arith, f) in
                rw (same, queue_at q, have_at q, other) h
          ];
          there = λ q h. have_at q ∙ h;
        }
    received-IsMoved now addr i pt' incomplete k = same-IsMoved pt' k.apart k.only k.told.0
    received-IsMoved now addr i pt' done_by_other k = same-IsMoved pt' k.apart k.only k.told.0
    received-IsMoved now addr i pt' untracked k = absurd k.told
    received-IsMoved now addr i pt' bogus_data k = absurd k.told
    received-IsMoved now addr i pt' invalid_piece k = unmoved-IsMoved [] pt' k.told
    received-IsMoved now addr i pt' invalid_chunk k = unmoved-IsMoved [] pt' k.told
    received-IsMoved now addr i pt' oversized k = unmoved-IsMoved [] pt' k.told
    received-IsMoved now addr i pt' not_requested k = unmoved-IsMoved [] pt' k.told
    received-IsMoved now addr i pt' write_failed k = unmoved-IsMoved [] pt' k.told
    received-IsMoved now addr i pt' not_inflight k = unmoved-IsMoved [] pt' k.told
    received-IsMoved now addr i pt' (stolen_by peer) k = unmoved-IsMoved [] pt' k.told

    owned_somewhere :
        (peer q : ℕ) → is_owned peer (find q l.pieces.inflight) ≡ true → is_somewhere l q ≡ true
    owned_somewhere peer q t = elim (Option-cases (find q l.pieces.inflight)) [
      | inl absent ↦ cc (rw absent at t)
      | inr (info, found) ↦ rw found (ground arith)
    ]

    pub died-IsMoved :
        (pt' : PieceTracker BF) (peer : ℕ)
        → IsApart pt'
        → ((q : ℕ)
            → find q pt'.inflight ≡ (
                if is_owned peer (find q l.pieces.inflight)
                then none
                else find q l.pieces.inflight))
        → ((q : ℕ)
            → bits.get pt'.chunks.queue_pieces q ≡ (
                is_owned peer (find q l.pieces.inflight)
                || bits.get l.pieces.chunks.queue_pieces q))
        → Requeued l.pieces.chunks pt'.chunks
        → IsMoved [] l (record l { pieces = pt' })
    died-IsMoved pt' peer apart found queue only =
        let have_at = λ (q : ℕ). ap (λ (t : ChunkTracker BF). bits.get t.have q) only in
        record {
          apart = apart;
          lengths_eq = ap (λ (t : ChunkTracker BF). t.lengths) only;
          failed_eq = refl;
          slots_eq = ap (λ (t : ChunkTracker BF). length t.per_file_bytes) only;
          completing_there =
              still-IsCompleting l pt' (ap (λ (t : ChunkTracker BF). t.lengths) only)
                (λ q h. have_at q ∙ h) s.completing_there;
          checking_apart = λ q m.
              let c = s.checking_apart q m in
              let unowned : is_owned peer (find q l.pieces.inflight) ≡ false =
                ap (is_owned peer) (c.3) in
              (
                omega (arith, c.0, ap (λ (t : ChunkTracker BF). t.lengths.last_piece_id) only),
                queue q ∙ rw unowned (c.1),
                have_at q ∙ c.2,
                found q ∙ rw unowned (c.3),
              );
          kept = λ q h. elim (Bool-cases (is_owned peer (find q l.pieces.inflight))) [
            | inl t ↦
                let queued : bits.get pt'.chunks.queue_pieces q ≡ true = queue q ∙ rw t refl in
                rw queued (ground arith)
            | inr f ↦
                let same : find q pt'.inflight ≡ find q l.pieces.inflight = found q ∙ rw f refl in
                let queued : bits.get pt'.chunks.queue_pieces q
                    ≡ bits.get l.pieces.chunks.queue_pieces q =
                  queue q ∙ rw f refl in
                rw (same, queued, have_at q) h
          ];
          gone = λ q a h. elim (Bool-cases (is_owned peer (find q l.pieces.inflight))) [
            | inl t ↦ let here : is_somewhere l q ≡ true = owned_somewhere peer q t in cc (here, h)
            | inr f ↦
                let same : find q pt'.inflight ≡ find q l.pieces.inflight = found q ∙ rw f refl in
                let queued : bits.get pt'.chunks.queue_pieces q
                    ≡ bits.get l.pieces.chunks.queue_pieces q =
                  queue q ∙ rw f refl in
                rw (same, queued, have_at q) h
          ];
          there = λ q h. have_at q ∙ h;
        }
