-- ===== src/PieceTracker/OnlyFiles.antt =====
-- A change of the selected files while pieces are in flight.
use rust_torrent.Prelude.{ℕ, ◌≡◌, refl, ◌∙◌, ap, Bool, true, false, some, arith}
use rust_torrent.Prelude.HashMap.{find}
use rust_torrent.Outcome.{ok}
use rust_torrent.Lengths.{Lengths}
use rust_torrent.Bits.{Bits}
use rust_torrent.ChunkTracker.{FileInfos, compute_selected_pieces}
use rust_torrent.ChunkTracker.OnlyFiles.{update_only_files_lem}
use rust_torrent.PieceTracker.{InflightPiece, PieceTracker, update_only_files}
use rust_torrent.PieceTracker.Apart.{IsApart}

module _ {BF : Type 0} ⦃bits : Bits BF⦄ {pt : PieceTracker BF} (a : IsApart pt) (fis : FileInfos)
    (only : ℕ → Bool) where
  -- In a piece tracker that satisfies the invariant and whose pieces in flight are all selected,
  -- `update_only_files` returns with the new byte counts and keeps the invariant and the pieces in
  -- flight, for any choice of files.
  pub update_only_files-IsApart :
      ((p : ℕ) (info : InflightPiece)
        → find p pt.inflight ≡ some info
        → bits.get pt.chunks.selected p ≡ true)
      → (pt' : PieceTracker BF) × (update_only_files pt fis only ≡ ok (pt', pt'.chunks.hns))
        × IsApart pt'
        × (pt'.inflight ≡ pt.inflight)
  unfolding update_only_files
  update_only_files-IsApart selected_before =
      let (ct, eq, valid, selected_eq, have_eq, lengths_eq, queue) =
        update_only_files_lem a.chunks_valid fis only in
      let last = ap (λ (l : Lengths). l.last_piece_id) lengths_eq in
      let have_at = λ (q : ℕ). ap (λ (b : BF). bits.get b q) have_eq in
      (
        record pt { chunks = ct },
        rw eq,
        record {
          chunks_valid = valid;
          unique = a.unique;
          inflight_apart = λ q i h.
              let r = a.inflight_apart q i h in
              (
                omega (arith, r.0, last),
                ground (arith, queue q r.0, r.1, selected_before q i h),
                have_at q ∙ r.2,
              );
          queue_apart = λ q h queued.
              have_at q
              ∙ ground (
                arith,
                queue q (omega (arith, h, last)),
                a.queue_apart q (omega (arith, h, last)),
                queued,
              );
        },
        refl,
      )

  -- In a piece tracker that satisfies the invariant, a piece in flight that is not selected and is
  -- chosen by `update_only_files` is queued afterwards, while it is still in flight for the same
  -- peer.
  pub update_only_files_requeues :
      (p : ℕ) {info : InflightPiece}
      → find p pt.inflight ≡ some info
      → bits.get pt.chunks.selected p ≡ false
      → (let chosen : BF = compute_selected_pieces pt.chunks.lengths only fis in
          bits.get chosen p ≡ true)
      → (pt' : PieceTracker BF) × (update_only_files pt fis only ≡ ok (pt', pt'.chunks.hns))
        × (find p pt'.inflight ≡ some info)
        × (bits.get pt'.chunks.queue_pieces p ≡ true)
  unfolding update_only_files
  update_only_files_requeues p {info} h unselected chosen =
      let (ct, eq, valid, selected_eq, have_eq, lengths_eq, queue) =
        update_only_files_lem a.chunks_valid fis only in
      let r = a.inflight_apart p info h in
      let now_selected = ap (λ (b : BF). bits.get b p) selected_eq ∙ chosen in
      (
        record pt { chunks = ct },
        rw eq,
        h,
        queue p r.0 ∙ rw (now_selected, unselected, r.2) (ground arith),
      )
