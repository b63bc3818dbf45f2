-- ===== src/ChunkTracker/OnlyFiles.antt =====
-- `update_only_files`: what the tracker is after the user selects other files.
use rust_torrent.Prelude.{
  ℕ, ◌*◌, ◌≤◌, ◌<◌, ◌≡◌, refl, sym, subst, ◌∙◌, ap, Bool, not, ◌&&◌, ◌||◌, List, keep_if, ltb,
  arith,
}
use rust_torrent.Prelude.Members.{member, member-keep_if}
use rust_torrent.Outcome.{ok}
use rust_torrent.Lengths.{piece_bitfield_bytes}
use rust_torrent.Bits.{Bits}
use rust_torrent.ChunkTracker.{ChunkTracker, FileInfos, compute_selected_pieces, calc_hns}
use rust_torrent.ChunkTracker.Bytes.{hns_of, calc_hns-eq}
use rust_torrent.ChunkTracker.Valid.{IsShaped, IsValid, piece_bits}
use rust_torrent.ChunkTracker.Methods.{update_only_files, requeue_loop, newly_selected, set_all}
use rust_torrent.ChunkTracker.Select.{
  len-selected, fresh_piece, newly_selected-eq, set_all_lem, member-iter_ones, Requeued,
  requeue_loop_lem,
}

module _ {BF : Type 0} ⦃bits : Bits BF⦄ {ct : ChunkTracker BF} (v : IsValid ct) (fis : FileInfos)
    (only : ℕ → Bool) where
  abbrev chosen : BF
  chosen = compute_selected_pieces ct.lengths only fis

  abbrev chosen_ct : ChunkTracker BF
  chosen_ct = record ct { selected = chosen }

  chosen-IsShaped : IsShaped chosen_ct
  chosen-IsShaped = record {
    lengths_valid = v.lengths_valid;
    queue_len = v.queue_len;
    have_len = v.have_len;
    selected_len = len-selected ct only fis;
    chunk_len = v.chunk_len;
  }

  abbrev fresh : List ℕ
  fresh = keep_if (fresh_piece ct.selected ct.have) (bits.iter_ones chosen)

  member-fresh :
      (j : ℕ)
      → member j fresh ≡ (
          (not (bits.get ct.selected j) && not (bits.get ct.have j))
          && (bits.get chosen j && ltb j (piece_bitfield_bytes ct.lengths * 8)))
  member-fresh j = rw (
    member-keep_if (fresh_piece ct.selected ct.have) j (bits.iter_ones chosen),
    member-iter_ones chosen j,
    len-selected ct only fis,
  )

  fresh-eq : newly_selected ct.selected ct.have (bits.iter_ones chosen) ≡ ok fresh
  fresh-eq =
      newly_selected-eq ct.selected ct.have (piece_bitfield_bytes ct.lengths * 8)
        (bits.iter_ones chosen) v.selected_len v.have_len
        (λ i m. ground (arith, member-iter_ones chosen i, len-selected ct only fis))

  fresh_bits :
      (b : BF) × (set_all (bits.zeros (piece_bitfield_bytes ct.lengths)) fresh ≡ ok b)
      × (bits.len b ≡ piece_bitfield_bytes ct.lengths * 8)
      × ((j : ℕ)
          → bits.get b j
            ≡ (member j fresh || bits.get (bits.zeros (piece_bitfield_bytes ct.lengths)) j))
  fresh_bits =
      set_all_lem (piece_bitfield_bytes ct.lengths * 8) fresh
        (bits.zeros (piece_bitfield_bytes ct.lengths)) (bits.len-zeros _)
        (λ i m. ground (arith, member-fresh i))

  requeued :
      (ct' : ChunkTracker BF) × (requeue_loop chosen_ct (bits.iter_ones fresh_bits.0) ≡ ok ct')
      × Requeued chosen_ct (bits.iter_ones fresh_bits.0) ct'
  requeued = requeue_loop_lem (bits.iter_ones fresh_bits.0) chosen-IsShaped

  -- The tracker that is returned.
  abbrev updated : ChunkTracker BF
  updated = record requeued.0 {
    queue_pieces =
        bits.bit_and requeued.0.queue_pieces (bits.bit_or requeued.0.selected requeued.0.have);
    hns = hns_of ct.lengths (bits.get ct.have) (bits.get chosen);
  }

  update_only_files-eq : update_only_files ct fis only ≡ ok (updated, updated.hns)
  unfolding update_only_files
  update_only_files-eq =
      let counts =
        calc_hns-eq ct.lengths ct.have chosen v.lengths_valid
          (omega (arith, v.have_len, piece_bits v.lengths_valid))
          (omega (arith, len-selected ct only fis, piece_bits v.lengths_valid)) in
      let counts' =
        subst
          (λ (t : ChunkTracker BF).
            calc_hns t.lengths t.have t.selected
            ≡ ok (hns_of ct.lengths (bits.get ct.have) (bits.get chosen)))
          (sym requeued.2.only) counts in
      rw (fresh-eq, fresh_bits.1, requeued.1, counts')

  selected_or_have : bits.len requeued.0.selected ≡ bits.len requeued.0.have
  selected_or_have = requeued.2.shaped.selected_len ∙ sym requeued.2.shaped.have_len

  mask_len :
      bits.len requeued.0.queue_pieces ≡ bits.len (bits.bit_or requeued.0.selected requeued.0.have)
  mask_len =
      requeued.2.shaped.queue_len
      ∙ sym (
          bits.len-or requeued.0.selected requeued.0.have selected_or_have
          ∙ requeued.2.shaped.selected_len)

  updated-IsValid : IsValid updated
  updated-IsValid = record {
    shaped = record {
      lengths_valid = requeued.2.shaped.lengths_valid;
      queue_len = bits.len-and _ _ mask_len ∙ requeued.2.shaped.queue_len;
      have_len = requeued.2.shaped.have_len;
      selected_len = requeued.2.shaped.selected_len;
      chunk_len = requeued.2.shaped.chunk_len;
    };
    synced =
        subst
          (λ (t : ChunkTracker BF).
            hns_of ct.lengths (bits.get ct.have) (bits.get chosen)
            ≡ hns_of t.lengths (bits.get t.have) (bits.get t.selected))
          (sym requeued.2.only) refl;
  }

  -- A piece of the torrent is queued afterwards if it was queued or has to be requeued, and is selected
  -- or there.
  updated_queue :
      (j : ℕ)
      → j ≤ ct.lengths.last_piece_id
      → bits.get updated.queue_pieces j ≡ (
          (bits.get ct.queue_pieces j
            || (member j (bits.iter_ones fresh_bits.0) && not (bits.get ct.have j)))
          && (bits.get chosen j || bits.get ct.have j))
  updated_queue j h =
      let r = requeued.0 in
      let last = ap (λ (t : ChunkTracker BF). t.lengths.last_piece_id) requeued.2.only in
      let inside : j < bits.len r.queue_pieces =
        omega (arith, requeued.2.shaped.queue_len, piece_bits requeued.2.shaped.lengths_valid) in
      bits.get-and r.queue_pieces (bits.bit_or r.selected r.have) j mask_len inside
      ∙ rw
          (
            requeued.2.queue j h,
            bits.get-or r.selected r.have j selected_or_have (
                omega (
                  arith, selected_or_have, requeued.2.shaped.queue_len, requeued.2.shaped.have_len,
                )),
          )
          (ap
            (λ (t : ChunkTracker BF).
              (bits.get ct.queue_pieces j
                || (member j (bits.iter_ones fresh_bits.0) && not (bits.get ct.have j)))
              && (bits.get t.selected j || bits.get t.have j))
            requeued.2.only)

  -- In a tracker that satisfies the invariant, `update_only_files` returns and keeps the invariant,
  -- with the byte counts that it returns; the chosen pieces are selected, the pieces that are there
  -- and the lengths stay, and a piece of the torrent is queued exactly if it is selected or there,
  -- and it was queued before or is newly selected and not there.
  pub update_only_files_lem :
      (ct' : ChunkTracker BF) × (update_only_files ct fis only ≡ ok (ct', ct'.hns))
      × IsValid ct'
      × (ct'.selected ≡ compute_selected_pieces ct.lengths only fis)
      × (ct'.have ≡ ct.have)
      × (ct'.lengths ≡ ct.lengths)
      × ((j : ℕ)
          → j ≤ ct.lengths.last_piece_id
          → bits.get ct'.queue_pieces j ≡ (
              (bits.get ct'.selected j || bits.get ct.have j)
              && (bits.get ct.queue_pieces j
                  || (bits.get ct'.selected j
                      && (not (bits.get ct.selected j) && not (bits.get ct.have j))))))
  update_only_files_lem =
      let selected_eq = ap (λ (t : ChunkTracker BF). t.selected) requeued.2.only in
      (
        updated,
        update_only_files-eq,
        updated-IsValid,
        selected_eq,
        ap (λ (t : ChunkTracker BF). t.have) requeued.2.only,
        ap (λ (t : ChunkTracker BF). t.lengths) requeued.2.only,
        λ j h.
            updated_queue j h
            ∙ ground (
              arith,
              ap (λ (b : BF). bits.get b j) selected_eq,
              member-iter_ones fresh_bits.0 j,
              fresh_bits.2,
              fresh_bits.3 j,
              bits.get-zeros (piece_bitfield_bytes ct.lengths) j,
              member-fresh j,
              piece_bits v.lengths_valid,
            ),
      )
