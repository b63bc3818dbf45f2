-- ===== src/ChunkTracker/Marks.antt =====
-- Reserving a piece, marking it as broken and marking it as downloaded.
use rust_torrent.Prelude.{
  ℕ, ◌+◌, ◌≤◌, ◌<◌, ◌≡◌, refl, ◌∙◌, ap, Bool, true, false, not, ◌&&◌, Bool-cases, inl, inr, ltb,
  lt→ltb, leb, ◌==◌, ==_refl, ==→eq, if◌then◌else◌, add_u64, sub_u64, arith,
}
use rust_torrent.Outcome.{ok}
use rust_torrent.Lengths.{piece_length, chunk_range}
use rust_torrent.Bits.{Bits}
use rust_torrent.ChunkTracker.{ChunkTracker, HaveNeededSelected}
use rust_torrent.ChunkTracker.Bytes.{
  hns_of, bytes_where, bytes_where-bump, bytes_where-congr, bytes_where-le,
}
use rust_torrent.ChunkTracker.Valid.{IsShaped, IsValid, piece_bits, chunk_range_bits}
use rust_torrent.ChunkTracker.Methods.{
  reserve_needed_piece, mark_piece_broken_if_not_have, mark_piece_downloaded,
}

-- Setting a bit that is set.
pub same_at : (f : ℕ → Bool) (i j : ℕ) → f i ≡ true → f j ≡ (if j == i then true else f j)
same_at f i j h = elim (Bool-cases (j == i)) [ inl t ↦ rw (t, ==→eq j i t) h | inr n ↦ rw n ]

module _ {BF : Type 0} ⦃bits : Bits BF⦄ {ct : ChunkTracker BF} (w : IsShaped ct) (id : ℕ)
    (le : id ≤ ct.lengths.last_piece_id) where
  pub queue_in : id < bits.len ct.queue_pieces
  queue_in = omega (arith, w.queue_len, piece_bits w.lengths_valid)

  have_in : id < bits.len ct.have
  have_in = omega (arith, w.have_len, piece_bits w.lengths_valid)

  selected_in : id < bits.len ct.selected
  selected_in = omega (arith, w.selected_len, piece_bits w.lengths_valid)

  pub reserve_needed_piece-eq :
      reserve_needed_piece ct id
      ≡ ok (record ct { queue_pieces = bits.set ct.queue_pieces id false })
  unfolding reserve_needed_piece
  reserve_needed_piece-eq = rw (lt→ltb _ _ queue_in)

  pub reserve_needed_piece-IsShaped :
      IsShaped (record ct { queue_pieces = bits.set ct.queue_pieces id false })
  reserve_needed_piece-IsShaped = record {
    lengths_valid = w.lengths_valid;
    queue_len = bits.len-set _ _ _ ∙ w.queue_len;
    have_len = w.have_len;
    selected_len = w.selected_len;
    chunk_len = w.chunk_len;
  }

  -- The tracker with a piece requeued.
  abbrev pub broken : ChunkTracker BF
  broken =
      let r = chunk_range ct.lengths id in
      record ct {
        queue_pieces = bits.set ct.queue_pieces id true;
        chunk_status = bits.fill ct.chunk_status r.start r.end false;
      }

  pub broken-IsShaped : IsShaped broken
  broken-IsShaped = record {
    lengths_valid = w.lengths_valid;
    queue_len = bits.len-set _ _ _ ∙ w.queue_len;
    have_len = w.have_len;
    selected_len = w.selected_len;
    chunk_len = bits.len-fill _ _ _ _ ∙ w.chunk_len;
  }

  pub mark_piece_broken-eq :
      mark_piece_broken_if_not_have ct id ≡ ok (if bits.get ct.have id then ct else broken)
  unfolding mark_piece_broken_if_not_have
  mark_piece_broken-eq =
      let r = chunk_range_bits w.lengths_valid id le in
      ground (arith, queue_in, have_in, w.chunk_len)

module _ {BF : Type 0} ⦃bits : Bits BF⦄ {ct : ChunkTracker BF} (v : IsValid ct) (id : ℕ)
    (le : id ≤ ct.lengths.last_piece_id) where
  -- In a tracker that satisfies the invariant, `reserve_needed_piece` at a piece of the torrent
  -- returns, clears the bit of the piece in the queue and no other, keeps the invariant, and
  -- changes nothing else.
  pub reserve_needed_piece_lem :
      (ct' : ChunkTracker BF) × (reserve_needed_piece ct id ≡ ok ct')
      × IsValid ct'
      × ((j : ℕ)
          → bits.get ct'.queue_pieces j ≡ (if j == id then false else bits.get ct.queue_pieces j))
      × (ct' ≡ record ct { queue_pieces = ct'.queue_pieces })
  reserve_needed_piece_lem = (
    record ct { queue_pieces = bits.set ct.queue_pieces id false },
    reserve_needed_piece-eq v.shaped id le,
    record { shaped = reserve_needed_piece-IsShaped v.shaped id le; synced = v.synced },
    (λ j. bits.get-set ct.queue_pieces id false j (queue_in v.shaped id le)),
    refl,
  )

  -- In a tracker that satisfies the invariant, `mark_piece_broken_if_not_have` at a piece of the
  -- torrent returns and keeps the invariant; unless the piece is there it queues the piece and
  -- clears its chunk range, and every other bit and field stays as it was.
  pub mark_piece_broken_lem :
      (ct' : ChunkTracker BF) × (mark_piece_broken_if_not_have ct id ≡ ok ct')
      × IsValid ct'
      × (ct' ≡ record ct { queue_pieces = ct'.queue_pieces; chunk_status = ct'.chunk_status })
      × ((j : ℕ)
          → bits.get ct'.queue_pieces j
            ≡ (if j == id && not (bits.get ct.have id) then true else bits.get ct.queue_pieces j))
      × ((c : ℕ)
          → bits.get ct'.chunk_status c ≡ (
              let r = chunk_range ct.lengths id in
              if not (bits.get ct.have id) && (leb r.start c && ltb c r.end)
              then false
              else bits.get ct.chunk_status c))
  mark_piece_broken_lem = elim (Bool-cases (bits.get ct.have id)) [
    | inl there ↦ (
      ct,
      mark_piece_broken-eq v.shaped id le ∙ rw there,
      v,
      refl,
      (λ j. rw there (ground arith)),
      (λ c. rw there),
    )
    | inr missing ↦ (
      broken v.shaped id le,
      mark_piece_broken-eq v.shaped id le ∙ rw missing,
      record { shaped = broken-IsShaped v.shaped id le; synced = v.synced },
      refl,
      (λ j.
          rw missing
            (bits.get-set ct.queue_pieces id true j (queue_in v.shaped id le) ∙ ground arith)),
      (λ c. rw missing (
          bits.get-fill ct.chunk_status _ _ false c
            (rw v.chunk_len (chunk_range_bits v.lengths_valid id le).1))),
    )
  ]

  -- The tracker with a piece more.
  abbrev gained : ChunkTracker BF
  gained =
      let len = piece_length ct.lengths id in
      record ct {
        have = bits.set ct.have id true;
        hns = record ct.hns {
          have_bytes = add_u64 ct.hns.have_bytes len;
          needed_bytes =
              if bits.get ct.selected id
              then sub_u64 ct.hns.needed_bytes len
              else ct.hns.needed_bytes;
        };
      }

  get-gained : (j : ℕ) → bits.get gained.have j ≡ (if j == id then true else bits.get ct.have j)
  get-gained j = bits.get-set ct.have id true j (have_in v.shaped id le)

  module _ (missing : bits.get ct.have id ≡ false) where
    have_bytes-gained :
        bytes_where ct.lengths (bits.get gained.have)
        ≡ bytes_where ct.lengths (bits.get ct.have) + piece_length ct.lengths id
    have_bytes-gained =
        bytes_where-bump ct.lengths (bits.get ct.have) (bits.get gained.have) id le missing
          (get-gained id ∙ rw (==_refl id)) (λ k ne. ground (arith, get-gained k))

    needed_bytes-gained :
        bits.get ct.selected id ≡ true
        → bytes_where ct.lengths (λ i. bits.get ct.selected i && not (bits.get ct.have i))
          ≡ bytes_where ct.lengths (λ i. bits.get ct.selected i && not (bits.get gained.have i))
            + piece_length ct.lengths id
    needed_bytes-gained sel =
        bytes_where-bump ct.lengths (λ i. bits.get ct.selected i && not (bits.get gained.have i))
          (λ i. bits.get ct.selected i && not (bits.get ct.have i)) id le
          (ground (arith, get-gained id)) (rw (sel, missing)) (λ k ne. ground (arith, get-gained k))

    needed_bytes-unchanged :
        bits.get ct.selected id ≡ false
        → bytes_where ct.lengths (λ i. bits.get ct.selected i && not (bits.get ct.have i))
          ≡ bytes_where ct.lengths (λ i. bits.get ct.selected i && not (bits.get gained.have i))
    needed_bytes-unchanged unsel =
        bytes_where-congr ct.lengths _ _ (λ k h. ground (arith, get-gained k))

    hns-gained : gained.hns ≡ hns_of ct.lengths (bits.get gained.have) (bits.get ct.selected)
    hns-gained =
        let l = ct.lengths in
        let have_bytes = ap (λ (h : HaveNeededSelected). h.have_bytes) v.synced in
        let needed_bytes = ap (λ (h : HaveNeededSelected). h.needed_bytes) v.synced in
        let selected_bytes = ap (λ (h : HaveNeededSelected). h.selected_bytes) v.synced in
        let bound = v.lengths_valid.total_bound in
        let have_bound = bytes_where-le v.lengths_valid (bits.get gained.have) in
        let needed_bound =
          bytes_where-le v.lengths_valid
            (λ i. bits.get ct.selected i && not (bits.get ct.have i)) in
        elim (Bool-cases (bits.get ct.selected id)) [
          | inl sel ↦ rw sel (ground (arith, have_bytes-gained, needed_bytes-gained sel))
          | inr unsel ↦ rw unsel (ground (arith, have_bytes-gained, needed_bytes-unchanged unsel))
        ]

  mark_piece_downloaded-eq :
      mark_piece_downloaded ct id ≡ ok (if bits.get ct.have id then ct else gained)
  unfolding mark_piece_downloaded
  mark_piece_downloaded-eq = ground (arith, (have_in v.shaped id le), selected_in v.shaped id le)

  gained-IsValid : bits.get ct.have id ≡ false → IsValid gained
  gained-IsValid missing = record {
    shaped = record {
      lengths_valid = v.lengths_valid;
      queue_len = v.queue_len;
      have_len = bits.len-set _ _ _ ∙ v.have_len;
      selected_len = v.selected_len;
      chunk_len = v.chunk_len;
    };
    synced = hns-gained missing;
  }

  -- In a tracker that satisfies the invariant, `mark_piece_downloaded` at a piece of the torrent
  -- returns, adds the piece to those that are there and no other, and keeps the invariant, so the
  -- byte counts stay those of the bit arrays; it changes nothing else.
  pub mark_piece_downloaded_lem :
      (ct' : ChunkTracker BF) × (mark_piece_downloaded ct id ≡ ok ct')
      × IsValid ct'
      × (ct' ≡ record ct { have = ct'.have; hns = ct'.hns })
      × ((j : ℕ) → bits.get ct'.have j ≡ (if j == id then true else bits.get ct.have j))
  mark_piece_downloaded_lem = elim (Bool-cases (bits.get ct.have id)) [
    | inl there ↦ (
      ct,
      mark_piece_downloaded-eq ∙ rw there,
      v,
      refl,
      (λ j. same_at (bits.get ct.have) id j there),
    )
    | inr missing ↦
        (gained, mark_piece_downloaded-eq ∙ rw missing, gained-IsValid missing, refl, get-gained)
  ]
