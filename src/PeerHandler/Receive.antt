-- ===== src/PeerHandler/Receive.antt =====
-- What a handler does with a block that it receives.
use rust_torrent.Prelude.{
  ℕ, ◌≤◌, ◌<◌, ◌≡◌, refl, sym, ◌∙◌, ap, subst, Bool, Bool-cases, Option-cases, inl, inr, Option,
  none, some, ltb, ◌==◌, ==→eq, if◌then◌else◌, u32_mod, arith,
}
use rust_torrent.Prelude.HashMap.{find}
use rust_torrent.Outcome.{ok}
use rust_torrent.Lengths.{ChunkInfo, validate_piece_index, chunk_info_from_received_data}
use rust_torrent.Lengths.Received.{received_in_bounds}
use rust_torrent.Bits.{Bits}
use rust_torrent.ChunkTracker.{
  ChunkTracker, PieceMessage, ChunkMarkingResult, not_completed, previously_completed, completed,
}
use rust_torrent.ChunkTracker.Valid.{IsValid}
use rust_torrent.ChunkTracker.Received.{AllMarked, Marked, mark_chunk_downloaded_lem}
use rust_torrent.PieceTracker.{InflightPiece, PieceTracker, elapsed, mark_chunk_downloaded}
use rust_torrent.PieceTracker.Apart.{IsApart, take_inflight_lem}
use rust_torrent.PeerHandler.{
  ReceivedResult, invalid_piece, invalid_chunk, oversized, not_requested, bogus_data, write_failed,
  not_inflight, done_by_other, incomplete, untracked, stolen_by, to_check, taken, mark_written,
  write_to_disk, on_received_piece,
}

module _ {BF : Type 0} ⦃bits : Bits BF⦄ where
  -- Nothing but the chunk bits differs.
  abbrev pub OnlyChunks : PieceTracker BF → PieceTracker BF → Type 0
  OnlyChunks pt pt' = pt'.chunks ≡ record pt.chunks { chunk_status = pt'.chunks.chunk_status }

  chunks-IsApart :
      {pt : PieceTracker BF}
      → IsApart pt
      → (ct : ChunkTracker BF) → IsValid ct
      → ct ≡ record pt.chunks { chunk_status = ct.chunk_status }
      → IsApart (record pt { chunks = ct })
  chunks-IsApart {pt} a ct valid only =
      let last = ap (λ (t : ChunkTracker BF). t.lengths.last_piece_id) only in
      let queue_at = λ (q : ℕ). ap (λ (t : ChunkTracker BF). bits.get t.queue_pieces q) only in
      let have_at = λ (q : ℕ). ap (λ (t : ChunkTracker BF). bits.get t.have q) only in
      record {
        chunks_valid = valid;
        unique = a.unique;
        inflight_apart = λ q i h.
            let r = a.inflight_apart q i h in
            (omega (arith, r.0, last), queue_at q ∙ r.1, have_at q ∙ r.2);
        queue_apart = λ q h queued.
            have_at q ∙ a.queue_apart q (omega (arith, h, last)) (sym (queue_at q) ∙ queued);
      }

  -- What is told by the result for a block of a piece.
  abbrev pub Told : ℕ → ℕ → ℕ → PieceTracker BF → PieceTracker BF → ReceivedResult → Type 0
  Told now addr i pt pt' (to_check p time) =
      (p ≡ i)
      × (info : InflightPiece) × (find p pt.inflight ≡ some info)
      × (info.peer ≡ addr)
      × (time ≡ elapsed now info)
      × ((q : ℕ) → find q pt'.inflight ≡ (if p == q then none else find q pt.inflight))
      × (¬ AllMarked pt.chunks p)
      × AllMarked pt'.chunks p
  Told now addr i pt pt' incomplete = (pt'.inflight ≡ pt.inflight) × (¬ AllMarked pt'.chunks i)
  Told now addr i pt pt' done_by_other = (pt'.inflight ≡ pt.inflight) × AllMarked pt.chunks i
  Told now addr i pt pt' untracked = ⊥
  Told now addr i pt pt' bogus_data = ⊥
  Told now addr i pt pt' r = pt' ≡ pt

  pub record IsHandled (now addr i : ℕ) (pt pt' : PieceTracker BF) (r : ReceivedResult)
      : Type 0 where
    pub apart : IsApart pt'
    pub only : OnlyChunks pt pt'
    pub told : Told now addr i pt pt' r

  not_not_marked : (ct : ChunkTracker BF) (i : ℕ) → (¬ ¬ AllMarked ct i) → AllMarked ct i
  not_not_marked ct i nn j low high = elim (Bool-cases (bits.get ct.chunk_status j)) [
    | inl t ↦ t
    | inr f ↦ absurd (nn (λ all. cc (all j low high, f)))
  ]

  module _ {pt : PieceTracker BF} (a : IsApart pt) (now addr : ℕ) where
    unchanged-IsHandled :
        (i : ℕ) (r : ReceivedResult) → Told now addr i pt pt r → IsHandled now addr i pt pt r
    unchanged-IsHandled i r t = record { apart = a; only = refl; told = t }

    module _ (m : PieceMessage) (le : m.index ≤ pt.chunks.lengths.last_piece_id)
        (small : m.len < u32_mod) {c : ChunkInfo}
        (e : chunk_info_from_received_data pt.chunks.lengths m.index m.begin m.len ≡ some c)
        {info : InflightPiece} (found : find c.piece_index pt.inflight ≡ some info)
        (mine : info.peer ≡ addr) where
      at : c.piece_index ≡ m.index
      at = (received_in_bounds a.chunks_valid.lengths_valid m.index m.begin m.len le e).0

      -- By the mark of the chunk.
      Marked-IsHandled :
          (ct : ChunkTracker BF) (r : ChunkMarkingResult)
          → mark_chunk_downloaded pt m ≡ ok (record pt { chunks = ct }, some r)
          → Marked pt.chunks c ct r
          → (pt' : PieceTracker BF) × (o : ReceivedResult) × (mark_written now m c pt ≡ ok (pt', o))
            × IsHandled now addr m.index pt pt' o
      unfolding mark_written
      Marked-IsHandled ct not_completed eq k = (
        record pt { chunks = ct },
        incomplete,
        rw (mark_written, eq) refl,
        record {
          apart = chunks-IsApart a ct k.valid k.rest_unchanged;
          only = k.rest_unchanged;
          told = (refl, subst (λ (i : ℕ). ¬ AllMarked ct i) at (k.not_completed_iff.0 refl));
        },
      )
      Marked-IsHandled ct previously_completed eq k = (
        record pt { chunks = ct },
        done_by_other,
        rw (mark_written, eq) refl,
        record {
          apart = chunks-IsApart a ct k.valid k.rest_unchanged;
          only = k.rest_unchanged;
          told = (refl, subst (AllMarked pt.chunks) at (k.previously_iff.0 refl));
        },
      )
      Marked-IsHandled ct completed eq k =
          let apart = chunks-IsApart a ct k.valid k.rest_unchanged in
          let (pt', took, apart', chunks_eq, others, queued, missing) =
            take_inflight_lem apart c.piece_index now found in
          let before : ¬ AllMarked pt.chunks c.piece_index = λ all. cc (k.previously_iff.1 all) in
          let after : AllMarked ct c.piece_index =
            not_not_marked ct c.piece_index (λ no_all. cc (k.not_completed_iff.1 no_all)) in
          (
            pt',
            to_check c.piece_index (elapsed now info),
            rw (mark_written, eq)
                (ap (λ (r : PieceTracker BF × Option ℕ). ok (taken c.piece_index r)) took),
            record {
              apart = apart';
              only =
                  chunks_eq
                  ∙ k.rest_unchanged
                  ∙ ap (λ (t : ChunkTracker BF). record pt.chunks { chunk_status = t.chunk_status })
                      (sym chunks_eq);
              told = (
                at,
                info,
                found,
                mine,
                refl,
                others,
                before,
                subst (λ (t : ChunkTracker BF). AllMarked t c.piece_index) (sym chunks_eq) after,
              );
            },
          )

      mark_written_lem :
          (pt' : PieceTracker BF) × (o : ReceivedResult) × (mark_written now m c pt ≡ ok (pt', o))
          × IsHandled now addr m.index pt pt' o
      unfolding mark_chunk_downloaded
      mark_written_lem =
          let (ct, r, eq, k) = mark_chunk_downloaded_lem a.chunks_valid m small le e in
          Marked-IsHandled ct r (rw (mark_chunk_downloaded, eq) refl) k

    -- In a piece tracker that satisfies the invariant, `on_received_piece` returns for any message,
    -- keeps the invariant and changes nothing of the chunk tracker but chunk bits. The hash is
    -- checked only of a piece that was in flight for this peer and whose chunks were not all marked
    -- before and all are marked now; it is taken out of flight, and no other. A block that leaves a
    -- piece incomplete or belongs to one that was complete leaves the pieces in flight as they are.
    -- In all other cases nothing changes.
    pub on_received_piece_lem :
        (requested : ChunkInfo → Bool) (written : Bool) (m : PieceMessage)
        → (pt' : PieceTracker BF) × (o : ReceivedResult) × (on_received_piece now addr requested
              written m pt
            ≡ ok (pt', o))
          × IsHandled now addr m.index pt pt' o
    unfolding on_received_piece write_to_disk validate_piece_index
    on_received_piece_lem requested written m =
        elim (Bool-cases (ltb pt.chunks.lengths.last_piece_id m.index)) [
          | inl past ↦ (
            pt,
            invalid_piece,
            rw (on_received_piece, past) refl,
            unchanged-IsHandled m.index invalid_piece refl,
          )
          | inr inside ↦ elim (Bool-cases (ltb m.len u32_mod)) [
            | inr large ↦ (
              pt,
              oversized,
              rw (on_received_piece, inside, large) refl,
              unchanged-IsHandled m.index oversized refl,
            )
            | inl small ↦
                elim (Option-cases
                  (chunk_info_from_received_data pt.chunks.lengths m.index m.begin m.len)) [
                    | inl none_at ↦ (
                      pt,
                      invalid_chunk,
                      rw (on_received_piece, inside, small, none_at) refl,
                      unchanged-IsHandled m.index invalid_chunk refl,
                    )
                    | inr (c, e) ↦ elim (Bool-cases (requested c)) [
                      | inr unasked ↦ (
                        pt,
                        not_requested,
                        rw (on_received_piece, inside, small, e, unasked) refl,
                        unchanged-IsHandled m.index not_requested refl,
                      )
                      | inl asked ↦ elim (Option-cases (find c.piece_index pt.inflight)) [
                        | inl absent ↦ (
                          pt,
                          not_inflight,
                          rw (on_received_piece, inside, small, e, asked, write_to_disk, absent)
                              refl,
                          unchanged-IsHandled m.index not_inflight refl,
                        )
                        | inr (info, found) ↦ elim (Bool-cases (info.peer == addr)) [
                          | inr other ↦ (
                            pt,
                            stolen_by info.peer,
                            rw
                                (
                                  on_received_piece, inside, small, e, asked, write_to_disk, found,
                                  other,
                                )
                                refl,
                            unchanged-IsHandled m.index (stolen_by info.peer) refl,
                          )
                          | inl mine ↦ elim (Bool-cases written) [
                            | inr bad ↦ (
                              pt,
                              write_failed,
                              rw
                                  (
                                    on_received_piece, inside, small, e, asked, write_to_disk,
                                    found, mine, bad,
                                  )
                                  refl,
                              unchanged-IsHandled m.index write_failed refl,
                            )
                            | inl good ↦
                                let (pt', o, eq, handled) =
                                  mark_written_lem m (ground (arith, inside))
                                    (ground (arith, small)) e found (==→eq info.peer addr mine) in
                                (
                                  pt',
                                  o,
                                  rw
                                      (
                                        on_received_piece, inside, small, e, asked, write_to_disk,
                                        found, mine, good,
                                      )
                                      eq,
                                  handled,
                                )
                          ]
                        ]
                      ]
                    ]
                  ]
          ]
        ]
