-- ===== src/ChunkTracker/Received.antt =====
-- Marking a chunk that a peer sent.
use rust_torrent.Prelude.{
  ℕ, ◌+◌, ◌≤◌, ◌<◌, ◌≡◌, ◌↔◌, refl, sym, ◌∙◌, true, Bool-cases, inl, inr, none, some, lt→ltb, ◌==◌,
  if◌then◌else◌, u32_mod, arith,
}
use rust_torrent.Outcome.{ok}
use rust_torrent.Lengths.{
  Lengths, ChunkInfo, chunk_range, validate_piece_index, chunk_info_from_received_data,
}
use rust_torrent.Lengths.Received.{received_in_bounds}
use rust_torrent.Bits.{Bits}
use rust_torrent.ChunkTracker.{
  ChunkTracker, ChunkMarkingResult, PieceMessage, previously_completed, not_completed, completed,
}
use rust_torrent.ChunkTracker.Valid.{IsValid, chunk_range_bits}
use rust_torrent.ChunkTracker.Marks.{same_at}
use native.Mathlib.Decide.{dec_lt}
use rust_torrent.ChunkTracker.Methods.{mark_chunk, mark_chunk_downloaded}

pub validate_piece_index-eq :
    (l : Lengths) (i : ℕ) → i ≤ l.last_piece_id → validate_piece_index l i ≡ some i
unfolding validate_piece_index
validate_piece_index-eq l i h = ground arith

pub validate_piece_index-none :
    (l : Lengths) (i : ℕ) → l.last_piece_id < i → validate_piece_index l i ≡ none
unfolding validate_piece_index
validate_piece_index-none l i h = ground arith

module _ {BF : Type 0} ⦃bits : Bits BF⦄ where
  -- All chunks of a piece are marked.
  abbrev pub AllMarked : ChunkTracker BF → ℕ → Type 0
  AllMarked ct i =
      (j : ℕ)
      → (chunk_range ct.lengths i).start ≤ j
      → j < (chunk_range ct.lengths i).end
      → bits.get ct.chunk_status j ≡ true

-- What marking chunk `c` of piece `i` does.
pub record Marked {BF : Type 0} ⦃bits : Bits BF⦄ (ct : ChunkTracker BF) (c : ChunkInfo)
    (ct' : ChunkTracker BF) (r : ChunkMarkingResult) : Type 0 where
  pub valid : IsValid ct'
  pub rest_unchanged : ct' ≡ record ct { chunk_status = ct'.chunk_status }
  pub only_chunk :
      (j : ℕ)
      → bits.get ct'.chunk_status j
        ≡ (if j == c.absolute_index then true else bits.get ct.chunk_status j)
  pub previously_iff : (r ≡ previously_completed) ↔ AllMarked ct c.piece_index
  pub not_completed_iff : (r ≡ not_completed) ↔ (¬ AllMarked ct' c.piece_index)

module _ {BF : Type 0} ⦃bits : Bits BF⦄ {ct : ChunkTracker BF} (v : IsValid ct) (c : ChunkInfo)
    (le : c.piece_index ≤ ct.lengths.last_piece_id)
    (abs : c.absolute_index ≡ (chunk_range ct.lengths c.piece_index).start + c.chunk_index)
    (inside : c.absolute_index < (chunk_range ct.lengths c.piece_index).end) where
  abbrev marked : ChunkTracker BF
  marked = record ct {
    chunk_status =
        bits.set ct.chunk_status ((chunk_range ct.lengths c.piece_index).start + c.chunk_index)
          true;
  }

  get-marked :
      (j : ℕ)
      → bits.get marked.chunk_status j
        ≡ (if j == c.absolute_index then true else bits.get ct.chunk_status j)
  get-marked j =
      let r = chunk_range_bits v.lengths_valid c.piece_index le in
      rw abs (bits.get-set ct.chunk_status _ true j (omega (arith, v.chunk_len)))

  mark_chunk-eq :
      mark_chunk ct c
      ≡ ok (
          let r = chunk_range ct.lengths c.piece_index in
          if bits.all ct.chunk_status r.start r.end then (ct, previously_completed) else (
            marked,
            if bits.all marked.chunk_status r.start r.end then completed else not_completed,
          ))
  unfolding mark_chunk
  mark_chunk-eq =
      let r = chunk_range_bits v.lengths_valid c.piece_index le in ground (arith, v.chunk_len)

  marked-IsValid : IsValid marked
  marked-IsValid = record {
    shaped = record {
      lengths_valid = v.lengths_valid;
      queue_len = v.queue_len;
      have_len = v.have_len;
      selected_len = v.selected_len;
      chunk_len = bits.len-set _ _ _ ∙ v.chunk_len;
    };
    synced = v.synced;
  }

  -- The tests `all` of the method, as statements.
  all_before :
      (bits.all ct.chunk_status
          (chunk_range ct.lengths c.piece_index).start
          (chunk_range ct.lengths c.piece_index).end
        ≡ true)
      ↔ AllMarked ct c.piece_index
  all_before = bits.all_iff ct.chunk_status _ _

  all_after :
      (bits.all marked.chunk_status
          (chunk_range ct.lengths c.piece_index).start
          (chunk_range ct.lengths c.piece_index).end
        ≡ true)
      ↔ AllMarked marked c.piece_index
  all_after = bits.all_iff marked.chunk_status _ _

  mark_chunk-Marked :
      (ct' : ChunkTracker BF) × (r : ChunkMarkingResult) × (mark_chunk ct c ≡ ok (ct', r))
      × Marked ct c ct' r
  mark_chunk-Marked =
      let rg = chunk_range ct.lengths c.piece_index in
      elim (Bool-cases (bits.all ct.chunk_status rg.start rg.end)) [
        | inl before ↦ (
          ct,
          previously_completed,
          mark_chunk-eq ∙ rw before,
          record {
            valid = v;
            rest_unchanged = refl;
            only_chunk = λ j.
                same_at (bits.get ct.chunk_status) c.absolute_index j
                  (all_before.0 before c.absolute_index (omega arith) inside);
            previously_iff = (λ e. all_before.0 before, λ m. refl);
            not_completed_iff = (λ e. cc, λ n. absurd (n (all_before.0 before)));
          },
        )
        | inr before ↦ elim (Bool-cases (bits.all marked.chunk_status rg.start rg.end)) [
          | inl after ↦ (
            marked,
            completed,
            mark_chunk-eq ∙ rw (before, after),
            record {
              valid = marked-IsValid;
              rest_unchanged = refl;
              only_chunk = get-marked;
              previously_iff = (λ e. cc, λ m. cc (before, all_before.1 m));
              not_completed_iff = (λ e. cc, λ n. absurd (n (all_after.0 after)));
            },
          )
          | inr after ↦ (
            marked,
            not_completed,
            mark_chunk-eq ∙ rw (before, after),
            record {
              valid = marked-IsValid;
              rest_unchanged = refl;
              only_chunk = get-marked;
              previously_iff = (λ e. cc, λ m. cc (before, all_before.1 m));
              not_completed_iff = (λ e m. cc (after, all_after.1 m), λ n. refl);
            },
          )
        ]
      ]

module _ {BF : Type 0} ⦃bits : Bits BF⦄ {ct : ChunkTracker BF} (v : IsValid ct) (m : PieceMessage)
    (small : m.len < u32_mod) where
  -- In a tracker that satisfies the invariant, for a message whose length has 32 bits and that is a
  -- chunk of a piece of the torrent, `mark_chunk_downloaded` returns, sets the bit of that chunk
  -- and no other, keeps the invariant and everything but the chunk bits, answers
  -- `PreviouslyCompleted` exactly if all chunks of the piece were marked before, and `NotCompleted`
  -- exactly if not all of them are marked afterwards.
  pub mark_chunk_downloaded_lem :
      {c : ChunkInfo}
      → m.index ≤ ct.lengths.last_piece_id
      → chunk_info_from_received_data ct.lengths m.index m.begin m.len ≡ some c
      → (ct' : ChunkTracker BF) × (r : ChunkMarkingResult) × (mark_chunk_downloaded ct m
          ≡ ok (ct', some r))
        × Marked ct c ct' r
  unfolding mark_chunk_downloaded
  mark_chunk_downloaded_lem {c} le e =
      let (at, fits, abs, inside) = received_in_bounds v.lengths_valid m.index m.begin m.len le e in
      let piece_eq : m.index ≡ c.piece_index = sym at in
      let (ct', r, eq, done) = mark_chunk-Marked v c (rw at le) (rw at abs) (rw at inside) in
      (
        ct',
        r,
        rw (
          mark_chunk_downloaded,
          validate_piece_index-eq ct.lengths m.index le,
          lt→ltb m.len u32_mod small,
          e,
          eq,
        ),
        done,
      )

  -- In a tracker that satisfies the invariant, a message whose length has 32 bits and that is no
  -- chunk of a piece of the torrent leaves the tracker as it is and gives no result.
  pub mark_chunk_downloaded_unknown :
      ((m.index ≤ ct.lengths.last_piece_id)
        → chunk_info_from_received_data ct.lengths m.index m.begin m.len ≡ none)
      → mark_chunk_downloaded ct m ≡ ok (ct, none)
  unfolding mark_chunk_downloaded
  mark_chunk_downloaded_unknown h = elim (dec_lt ct.lengths.last_piece_id m.index) [
    | yes past ↦ rw (mark_chunk_downloaded, validate_piece_index-none ct.lengths m.index past)
    | no inside ↦ rw (
      mark_chunk_downloaded,
      validate_piece_index-eq ct.lengths m.index (omega arith),
      lt→ltb m.len u32_mod small,
      h (omega arith),
    )
  ]
