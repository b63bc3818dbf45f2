-- ===== src/PeerHandler/Verdicts.antt =====
-- What the end of the check of a hash changes, with a verdict or an error.
use rust_torrent.Prelude.{
  length, ℕ, [], ◌∷◌, ◌≡◌, refl, ◌∙◌, ap, true, false, not, ◌&&◌, Bool-cases, inl, inr, ◌==◌, ==→eq,
  ==_refl, arith,
}
use rust_torrent.Prelude.Members.{member, member-keep_if}
use rust_torrent.Prelude.HashMap.{find}
use rust_torrent.Outcome.{ok}
use rust_torrent.Bits.{Bits}
use rust_torrent.ChunkTracker.{ChunkTracker}
use rust_torrent.PieceTracker.{PieceTracker}
use rust_torrent.PieceTracker.Apart.{mark_piece_hash_ok_lem, mark_piece_hash_failed_lem}
use rust_torrent.PeerHandler.{mark_checked}
use rust_torrent.PeerHandler.System.{Live, drop_piece}
use rust_torrent.PeerHandler.Settled.{is_somewhere, still-IsCompleting, IsSettled, IsMoved}

module _ {BF : Type 0} ⦃bits : Bits BF⦄ (start : ChunkTracker BF) (l : Live BF)
    (s : IsSettled start l) where
  dropped_member :
      (p q : ℕ) → member q (drop_piece p l.checking) ≡ (not (q == p) && member q l.checking)
  dropped_member p q = member-keep_if (λ (k : ℕ). not (k == p)) q l.checking

  pub good-IsMoved :
      (p : ℕ)
      → member p l.checking ≡ true
      → (pt' : PieceTracker BF) × (mark_checked p true l.pieces ≡ ok pt')
        × IsMoved [] l (record l {
          pieces = pt';
          checking = drop_piece p l.checking;
          completing = p ∷ l.completing;
        })
  unfolding mark_checked
  good-IsMoved p m =
      let (le, unqueued, missing, absent) = s.checking_apart p m in
      let (pt', eq, apart, inflight, have, only) =
        mark_piece_hash_ok_lem s.apart p le absent unqueued in
      let queue_at = λ (q : ℕ). ap (λ (t : ChunkTracker BF). bits.get t.queue_pieces q) only in
      let found_at = λ (q : ℕ). ap (find q) inflight in
      (
        pt',
        eq,
        record {
          apart = apart;
          lengths_eq = ap (λ (t : ChunkTracker BF). t.lengths) only;
          failed_eq = refl;
          slots_eq = ap (λ (t : ChunkTracker BF). length t.per_file_bytes) only;
          completing_there = λ q m. elim (Bool-cases (q == p)) [
            | inl t ↦ (
              omega (
                arith,
                le,
                ==→eq q p t,
                ap (λ (t : ChunkTracker BF). t.lengths.last_piece_id) only,
              ),
              have q ∙ rw t refl,
            )
            | inr f ↦
                still-IsCompleting l pt' (ap (λ (t : ChunkTracker BF). t.lengths) only)
                  (λ k h. have k ∙ ground (arith, h)) s.completing_there q (rw f at m)
          ];
          checking_apart = λ q d.
              let both = dropped_member p q in
              let c = s.checking_apart q (ground (arith, both, d)) in
              let other : (q == p) ≡ false = ground (arith, both, d) in
              (
                omega (arith, c.0, ap (λ (t : ChunkTracker BF). t.lengths.last_piece_id) only),
                queue_at q ∙ c.1,
                have q ∙ rw other (c.2),
                found_at q ∙ c.3,
              );
          kept = λ q h. elim (Bool-cases (q == p)) [
            | inl t ↦
                let now_there : bits.get pt'.chunks.have q ≡ true = have q ∙ rw t refl in
                rw now_there (ground arith)
            | inr f ↦
                let same : bits.get pt'.chunks.have q ≡ bits.get l.pieces.chunks.have q =
                  have q ∙ rw f refl in
                let still : member q (drop_piece p l.checking) ≡ member q l.checking =
                  dropped_member p q ∙ rw f refl in
                rw (found_at q, queue_at q, same, still) h
          ];
          gone = λ q a h. elim (Bool-cases (q == p)) [
            | inl t ↦
                let m' = ap (λ (j : ℕ). member j l.checking) (==→eq q p t) ∙ m in
                let here : is_somewhere l q ≡ true = rw m' (ground arith) in cc (here, h)
            | inr f ↦
                let same : bits.get pt'.chunks.have q ≡ bits.get l.pieces.chunks.have q =
                  have q ∙ rw f refl in
                let still : member q (drop_piece p l.checking) ≡ member q l.checking =
                  dropped_member p q ∙ rw f refl in
                rw (found_at q, queue_at q, same, still) h
          ];
          there = λ q h. have q ∙ ground (arith, h);
        },
      )

  pub bad-IsMoved :
      (p : ℕ)
      → member p l.checking ≡ true
      → (pt' : PieceTracker BF) × (mark_checked p false l.pieces ≡ ok pt')
        × IsMoved [] l (record l { pieces = pt'; checking = drop_piece p l.checking })
  unfolding mark_checked
  bad-IsMoved p m =
      let (le, unqueued, missing, absent) = s.checking_apart p m in
      let (pt', eq, apart, inflight, queue, only) =
        mark_piece_hash_failed_lem s.apart p le absent in
      let have_at = λ (q : ℕ). ap (λ (t : ChunkTracker BF). bits.get t.have q) only in
      let found_at = λ (q : ℕ). ap (find q) inflight in
      (
        pt',
        eq,
        record {
          apart = apart;
          lengths_eq = ap (λ (t : ChunkTracker BF). t.lengths) only;
          failed_eq = refl;
          slots_eq = ap (λ (t : ChunkTracker BF). length t.per_file_bytes) only;
          completing_there =
              still-IsCompleting l pt' (ap (λ (t : ChunkTracker BF). t.lengths) only)
                (λ q h. have_at q ∙ h) s.completing_there;
          checking_apart = λ q d.
              let both = dropped_member p q in
              let c = s.checking_apart q (ground (arith, both, d)) in
              let other : (q == p) ≡ false = ground (arith, both, d) in
              (
                omega (arith, c.0, ap (λ (t : ChunkTracker BF). t.lengths.last_piece_id) only),
                queue q ∙ rw other (c.1),
                have_at q ∙ c.2,
                found_at q ∙ c.3,
              );
          kept = λ q h. elim (Bool-cases (q == p)) [
            | inl t ↦
                let queued : bits.get pt'.chunks.queue_pieces q ≡ true =
                  queue q ∙ rw (t, missing) refl in
                rw queued (ground arith)
            | inr f ↦
                let same : bits.get pt'.chunks.queue_pieces q
                    ≡ bits.get l.pieces.chunks.queue_pieces q =
                  queue q ∙ rw f refl in
                let still : member q (drop_piece p l.checking) ≡ member q l.checking =
                  dropped_member p q ∙ rw f refl in
                rw (found_at q, same, have_at q, still) h
          ];
          gone = λ q a h. elim (Bool-cases (q == p)) [
            | inl t ↦
                let m' = ap (λ (j : ℕ). member j l.checking) (==→eq q p t) ∙ m in
                let here : is_somewhere l q ≡ true = rw m' (ground arith) in cc (here, h)
            | inr f ↦
                let same : bits.get pt'.chunks.queue_pieces q
                    ≡ bits.get l.pieces.chunks.queue_pieces q =
                  queue q ∙ rw f refl in
                let still : member q (drop_piece p l.checking) ≡ member q l.checking =
                  dropped_member p q ∙ rw f refl in
                rw (found_at q, same, have_at q, still) h
          ];
          there = λ q h. have_at q ∙ h;
        },
      )

  -- A check that fails with an error leaves the piece in the list of such pieces.
  pub failed-IsSettled :
      (p : ℕ)
      → IsSettled start (record l { checking = drop_piece p l.checking; failed = p ∷ l.failed })
  failed-IsSettled p = record {
    apart = s.apart;
    lengths_eq = s.lengths_eq;
    slots_eq = s.slots_eq;
    checking_apart = λ q m. s.checking_apart q (ground (arith, dropped_member p q, m));
    completing_there = s.completing_there;
    kept = λ q h.
        let k = s.kept q h in
        let d = dropped_member p q in
        elim (Bool-cases (q == p)) [
          | inl t ↦ rw t (ground arith)
          | inr f ↦
              let d' : member q (drop_piece p l.checking) ≡ member q l.checking = d ∙ rw f refl in
              rw (d', f) k
        ];
    there = s.there;
  }

  pub failed_gone :
      (p q : ℕ)
      → is_somewhere l q ≡ false
      → is_somewhere (record l { checking = drop_piece p l.checking; failed = p ∷ l.failed }) q
        ≡ false
  failed_gone p q h = ground (arith, dropped_member p q, h)

  -- The piece of such a check is nowhere.
  pub failed_nowhere :
      (p : ℕ)
      → member p l.checking ≡ true
      → is_somewhere (record l { checking = drop_piece p l.checking; failed = p ∷ l.failed }) p
        ≡ false
  failed_nowhere p m =
      let (le, unqueued, missing, absent) = s.checking_apart p m in
      let dropped : member p (drop_piece p l.checking) ≡ false =
        dropped_member p p ∙ rw (==_refl p) refl in
      rw (unqueued, missing, absent, dropped) refl
