-- ===== src/ChunkTracker/Methods.antt =====
-- The methods of `ChunkTracker`.
use rust_torrent.Prelude.{
  ℕ, ◌+◌, ◌-◌, Bool, true, false, Option, none, some, List, [], ◌∷◌, ◌++◌, get_elem?, set, ◌==◌,
  ltb, if◌then◌else◌, add_u64, sub_u64, u32_mod,
}
use rust_torrent.Outcome.{Outcome, ok, panicked, ◌>>=◌, unwrap}
use rust_torrent.Lengths.{
  Lengths, ValidPieceIndex, ChunkInfo, piece_length, chunk_range, piece_bitfield_bytes,
  size_of_piece_in_file, validate_piece_index, chunk_info_from_received_data,
}
use rust_torrent.Bits.{Bits, index_bit, set_bit, fill_range, all_range, in_bounds}
use rust_torrent.FileInfo.{FileInfo, iter_piece_priorities}
use rust_torrent.ChunkTracker.{
  ChunkTracker, HaveNeededSelected, finished, ChunkMarkingResult, previously_completed,
  not_completed, completed, FileInfos, PieceMessage, or_unchanged, compute_selected_pieces,
  calc_hns,
}

-- `u32::try_from(id)` and then `validate_piece_index`
abbrev pub as_valid_piece : Lengths → ℕ → Option ValidPieceIndex
as_valid_piece l id = if ltb id u32_mod then validate_piece_index l id else none

unfoldable pub filter_valid : Lengths → List ℕ → List ValidPieceIndex
filter_valid l [] = []
filter_valid l (id ∷ ids) =
    let rest = filter_valid l ids in
    elim (as_valid_piece l id) [ none ↦ rest | some valid ↦ valid ∷ rest ]

-- `flat_map(|(_id, f)| f.iter_piece_priorities())`, at one file
abbrev pub pieces_of : Option FileInfo → List ℕ
pieces_of none = []
pieces_of (some fi) = iter_piece_priorities fi.piece_range

module _ {BF : Type 0} ⦃bits : Bits BF⦄ where
  unfoldable pub reserve_needed_piece :
      ChunkTracker BF → ValidPieceIndex → Outcome (ChunkTracker BF)
  reserve_needed_piece ct index = do
    queue ← set_bit ct.queue_pieces index false
    ok (record ct { queue_pieces = queue })

  unfoldable pub is_piece_have : ChunkTracker BF → ValidPieceIndex → Outcome Bool
  is_piece_have ct id = index_bit ct.have id

  -- `get(…).map(|r| *r).unwrap_or_default()`
  abbrev pub bit_or_false : BF → ℕ → Bool
  bit_or_false b i = if ltb i (bits.len b) then bits.get b i else false

  unfoldable pub mark_piece_broken_if_not_have :
      ChunkTracker BF → ValidPieceIndex → Outcome (ChunkTracker BF)
  mark_piece_broken_if_not_have ct index =
      let marked = do
        queue ← set_bit ct.queue_pieces index true
        ok (record ct {
          queue_pieces = queue;
          chunk_status =
              or_unchanged ct.chunk_status
                (fill_range ct.chunk_status (chunk_range ct.lengths index) false);
        })
      in if bit_or_false ct.have index then ok ct else marked

  unfoldable pub mark_piece_downloaded :
      ChunkTracker BF → ValidPieceIndex → Outcome (ChunkTracker BF)
  mark_piece_downloaded ct id =
      let len = piece_length ct.lengths id in
      do
        is_have ← index_bit ct.have id
        is_selected ← if is_have then ok false else index_bit ct.selected id
        ok (
            if is_have then ct else record ct {
              have = bits.set ct.have id true;
              hns = record ct.hns {
                have_bytes = add_u64 ct.hns.have_bytes len;
                needed_bytes =
                    if is_selected then sub_u64 ct.hns.needed_bytes len else ct.hns.needed_bytes;
              };
            })

  unfoldable pub is_chunk_ready_to_upload : ChunkTracker BF → ChunkInfo → Bool
  is_chunk_ready_to_upload ct chunk = bit_or_false ct.have chunk.piece_index

  unfoldable pub get_remaining_bytes : ChunkTracker BF → ℕ
  get_remaining_bytes ct = ct.hns.needed_bytes

  -- The part of `mark_chunk_downloaded` behind the two `?`.
  unfoldable pub mark_chunk :
      ChunkTracker BF → ChunkInfo → Outcome (ChunkTracker BF × ChunkMarkingResult)
  mark_chunk ct info =
      let r = chunk_range ct.lengths info.piece_index in
      let before = bits.all ct.chunk_status r.start r.end in
      let marked = bits.set ct.chunk_status (r.start + info.chunk_index) true in
      let after = bits.all marked r.start r.end in
      let ct' = record ct { chunk_status = marked } in
      if in_bounds ct.chunk_status r
      then if before
        then ok (ct, previously_completed)
        else if ltb info.chunk_index (r.end - r.start)
        then ok (ct', if after then completed else not_completed)
        else panicked
      else panicked

  unfoldable pub mark_chunk_downloaded :
      ChunkTracker BF → PieceMessage → Outcome (ChunkTracker BF × Option ChunkMarkingResult)
  mark_chunk_downloaded ct piece = elim (validate_piece_index ct.lengths piece.index) [
    | none ↦ ok (ct, none)
    | some index ↦
        if ltb piece.len u32_mod
        then elim (chunk_info_from_received_data ct.lengths index piece.begin piece.len) [
          | none ↦ ok (ct, none)
          | some info ↦ mark_chunk ct info >>= λ r. ok (r.0, some r.1)
        ]
        else panicked
  ]

  -- `filter(|id| self.queue_pieces[*id])`
  unfoldable pub filter_queued : BF → List ℕ → Outcome (List ℕ)
  filter_queued queue [] = ok []
  filter_queued queue (id ∷ ids) = do
    queued ← index_bit queue id
    rest ← filter_queued queue ids
    ok (if queued then id ∷ rest else rest)

  -- The file at a place of the priority list, unless the number is unknown or all of it is there.
  unfoldable pub unfinished_file : ChunkTracker BF → FileInfos → ℕ → Outcome (Option FileInfo)
  unfinished_file ct file_infos id = elim (get_elem? file_infos id) [
    | none ↦ ok none
    | some fi ↦ elim (get_elem? ct.per_file_bytes id) [
      | none ↦ panicked
      | some n ↦ ok (if n == fi.len then none else some fi)
    ]
  ]

  -- All that the iterator yields, in order.
  unfoldable pub iter_queued_pieces :
      ChunkTracker BF → List ℕ → FileInfos → Outcome (List ValidPieceIndex)
  iter_queued_pieces ct [] file_infos = ok []
  iter_queued_pieces ct (id ∷ file_priorities) file_infos = do
    file ← unfinished_file ct file_infos id
    queued ← filter_queued ct.queue_pieces (pieces_of file)
    rest ← iter_queued_pieces ct file_priorities file_infos
    ok (filter_valid ct.lengths queued ++ rest)

  -- The filter over `selected.iter_ones()`: the pieces that were not selected before and are not there.
  unfoldable pub newly_selected : BF → BF → List ℕ → Outcome (List ℕ)
  newly_selected prev_selected have [] = ok []
  newly_selected prev_selected have (idx ∷ ones) = do
    was_selected ← index_bit prev_selected idx
    is_have ← if was_selected then ok true else index_bit have idx
    rest ← newly_selected prev_selected have ones
    ok (if is_have then rest else idx ∷ rest)

  unfoldable pub set_all : BF → List ℕ → Outcome BF
  set_all b [] = ok b
  set_all b (idx ∷ ids) = do b' ← set_bit b idx true; set_all b' ids

  -- The loop that requeues pieces.
  unfoldable pub requeue_valid :
      ChunkTracker BF → Option ValidPieceIndex → Outcome (ChunkTracker BF)
  requeue_valid ct none = ok ct
  requeue_valid ct (some validated) = mark_piece_broken_if_not_have ct validated

  unfoldable pub requeue_loop : ChunkTracker BF → List ℕ → Outcome (ChunkTracker BF)
  requeue_loop ct [] = ok ct
  requeue_loop ct (idx ∷ ids) = do
    ct' ← requeue_valid ct (as_valid_piece ct.lengths idx)
    requeue_loop ct' ids

  unfoldable pub update_only_files :
      ChunkTracker BF → FileInfos → (ℕ → Bool) → Outcome (ChunkTracker BF × HaveNeededSelected)
  update_only_files ct file_infos new_only_files =
      let selected = compute_selected_pieces ct.lengths new_only_files file_infos in
      let prev_selected = ct.selected in
      let empty = bits.zeros (piece_bitfield_bytes ct.lengths) in
      do
        fresh ← newly_selected prev_selected ct.have (bits.iter_ones selected)
        b ← set_all empty fresh
        ct' ← requeue_loop (record ct { selected = selected }) (bits.iter_ones b)
        hns ← calc_hns ct'.lengths ct'.have ct'.selected
        ok (
          record ct' {
            queue_pieces = bits.bit_and ct'.queue_pieces (bits.bit_or ct'.selected ct'.have);
            hns = hns;
          },
          hns,
        )

  unfoldable pub is_file_finished : ChunkTracker BF → FileInfo → Bool
  is_file_finished ct fi = elim (all_range ct.have fi.piece_range) [ none ↦ true | some b ↦ b ]

  unfoldable pub is_finished : ChunkTracker BF → Bool
  is_finished ct = finished ct.hns

  -- The remaining bytes of the file; `saturating_sub` is the subtraction of ℕ.
  unfoldable pub update_file_have_on_piece_completed :
      ChunkTracker BF → ValidPieceIndex → ℕ → FileInfo → Outcome (ChunkTracker BF × ℕ)
  update_file_have_on_piece_completed ct piece_id file_id fi =
      let diff_have = size_of_piece_in_file ct.lengths piece_id fi.offset_in_torrent fi.len in
      do
        have_bytes ← unwrap (get_elem? ct.per_file_bytes file_id)
        let updated = add_u64 have_bytes diff_have
        ok (record ct { per_file_bytes = set ct.per_file_bytes file_id updated }, fi.len - updated)
