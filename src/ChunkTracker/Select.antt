-- ===== src/ChunkTracker/Select.antt =====
-- The steps of `update_only_files`: the pieces that are newly selected, and the loop that requeues
-- them.
use rust_torrent.Prelude.{
  ℕ, ◌+◌, ◌*◌, ◌≤◌, ◌<◌, ◌≡◌, refl, ◌∙◌, ap, Bool, true, false, not, ◌&&◌, ◌||◌, Bool-cases, inl,
  inr, none, some, List, [], ◌∷◌, ltb, lt→ltb, ◌==◌, ==→eq, if◌then◌else◌, keep_if, range_from,
  u32_mod, arith,
}
use rust_torrent.Prelude.Members.{member, member-keep_if, member-range_from}
use rust_torrent.Outcome.{ok}
use rust_torrent.Lengths.{Lengths, piece_bitfield_bytes}
use rust_torrent.Lengths.Valid
use rust_torrent.Bits.{Bits}
use rust_torrent.ChunkTracker.{ChunkTracker, FileInfos, compute_selected_pieces, select_loop}
use rust_torrent.ChunkTracker.Valid.{IsShaped}
use rust_torrent.ChunkTracker.Marks.{broken, broken-IsShaped, mark_piece_broken-eq, queue_in}
use rust_torrent.ChunkTracker.Received.{validate_piece_index-eq, validate_piece_index-none}
use rust_torrent.ChunkTracker.Methods.{
  as_valid_piece, newly_selected, set_all, requeue_valid, requeue_loop,
  mark_piece_broken_if_not_have,
}
use native.Mathlib.Decide.{dec_lt}

as_valid_piece-none : (l : Lengths) (i : ℕ) → l.last_piece_id < i → as_valid_piece l i ≡ none
as_valid_piece-none l i h = ground (arith, validate_piece_index-none l i h)

as_valid_piece-some :
    {l : Lengths} → Valid.IsValid l → (i : ℕ) → i ≤ l.last_piece_id → as_valid_piece l i ≡ some i
as_valid_piece-some {l} v i h =
    rw (lt→ltb i u32_mod (omega (arith, Valid.ids_bound v))) (validate_piece_index-eq l i h)

requeue_there :
    (q h : ℕ → Bool) (i j : ℕ) → h i ≡ true → q j ≡ (q j || (member j (i ∷ []) && not (h j)))
requeue_there q h i j e = elim (Bool-cases (j == i)) [
  | inl t ↦ rw t (ground (arith, ap h (==→eq j i t)))
  | inr f ↦ rw f (ground arith)
]

requeue_missing :
    (q h : ℕ → Bool) (i j : ℕ)
    → h i ≡ false
    → (if j == i then true else q j) ≡ (q j || (member j (i ∷ []) && not (h j)))
requeue_missing q h i j e = elim (Bool-cases (j == i)) [
  | inl t ↦ rw t (ground (arith, ap h (==→eq j i t)))
  | inr f ↦ rw f (ground arith)
]

module _ {BF : Type 0} ⦃bits : Bits BF⦄ where
  len-select_loop :
      (only : ℕ → Bool) (idx : ℕ) (fis : FileInfos) (bf : BF)
      → bits.len (select_loop only idx fis bf) ≡ bits.len bf
  unfolding select_loop
  len-select_loop only idx [] bf = refl
  len-select_loop only idx (fi ∷ fis) bf =
      len-select_loop only (idx + 1) fis _
      ∙ ground (arith, bits.len-fill bf fi.piece_range.start fi.piece_range.end true)

  pub len-selected :
      (ct : ChunkTracker BF) (only : ℕ → Bool) (fis : FileInfos)
      → let selected : BF = compute_selected_pieces ct.lengths only fis in
        bits.len selected ≡ piece_bitfield_bytes ct.lengths * 8
  unfolding compute_selected_pieces
  len-selected ct only fis = len-select_loop only 0 fis _ ∙ bits.len-zeros _

  -- The pieces that the filter of `update_only_files` lets through.
  abbrev pub fresh_piece : BF → BF → ℕ → Bool
  fresh_piece prev have i = not (bits.get prev i) && not (bits.get have i)

  pub newly_selected-eq :
      (prev have : BF) (n : ℕ) (ones : List ℕ)
      → bits.len prev ≡ n
      → bits.len have ≡ n
      → ((i : ℕ) → member i ones ≡ true → i < n)
      → newly_selected prev have ones ≡ ok (keep_if (fresh_piece prev have) ones)
  unfolding newly_selected
  newly_selected-eq prev have n [] p h small = refl
  newly_selected-eq prev have n (i ∷ ones) p h small =
      let here : i < n = small i (ground arith) in
      rw
        (
          newly_selected-eq prev have n ones p h (λ j m. small j (ground arith)),
          lt→ltb i (bits.len prev) (omega arith),
          lt→ltb i (bits.len have) (omega arith),
        )
        (elim (Bool-cases (bits.get prev i)) [
          | inl was ↦ rw was
          | inr new ↦ elim (Bool-cases (bits.get have i)) [
            | inl there ↦ rw (new, there)
            | inr missing ↦ rw (new, missing)
          ]
        ])

  pub set_all_lem :
      (n : ℕ) (ids : List ℕ) (b : BF)
      → bits.len b ≡ n
      → ((i : ℕ) → member i ids ≡ true → i < n)
      → (b' : BF) × (set_all b ids ≡ ok b')
        × (bits.len b' ≡ n)
        × ((j : ℕ) → bits.get b' j ≡ (member j ids || bits.get b j))
  unfolding set_all
  set_all_lem n [] b e small = (b, refl, e, λ j. refl)
  set_all_lem n (i ∷ ids) b e small =
      let here : i < bits.len b = rw e (small i (ground arith)) in
      let (b', eq, len, get) =
        set_all_lem n ids (bits.set b i true) (bits.len-set b i true ∙ e)
          (λ j m. small j (ground arith)) in
      (
        b',
        rw (lt→ltb i (bits.len b) here) eq,
        len,
        λ j. get j ∙ ground (arith, bits.get-set b i true j here),
      )

  pub member-iter_ones :
      (b : BF) (j : ℕ) → member j (bits.iter_ones b) ≡ (bits.get b j && ltb j (bits.len b))
  member-iter_ones b j =
      rw
        (
          bits.iter_ones-eq b,
          member-keep_if (bits.get b) j (range_from 0 (bits.len b)),
          member-range_from j 0 (bits.len b),
        )
        (ground arith)

  -- What the loop leaves of the queue, and that it touches nothing but queue and chunks.
  pub record Requeued (ct : ChunkTracker BF) (ids : List ℕ) (ct' : ChunkTracker BF) : Type 0 where
    pub shaped : IsShaped ct'
    pub only : ct' ≡ record ct { queue_pieces = ct'.queue_pieces; chunk_status = ct'.chunk_status }
    pub queue :
        (j : ℕ)
        → j ≤ ct.lengths.last_piece_id
        → bits.get ct'.queue_pieces j
          ≡ (bits.get ct.queue_pieces j || (member j ids && not (bits.get ct.have j)))

  step_broken :
      {ct : ChunkTracker BF}
      → IsShaped ct
      → (i : ℕ) → i ≤ ct.lengths.last_piece_id
      → (ct' : ChunkTracker BF) × (mark_piece_broken_if_not_have ct i ≡ ok ct')
        × Requeued ct (i ∷ []) ct'
  step_broken {ct} w i le = elim (Bool-cases (bits.get ct.have i)) [
    | inl there ↦ (
      ct,
      mark_piece_broken-eq w i le ∙ rw there,
      record {
        shaped = w;
        only = refl;
        queue = λ j h. requeue_there (bits.get ct.queue_pieces) (bits.get ct.have) i j there;
      },
    )
    | inr missing ↦ (
      broken w i le,
      mark_piece_broken-eq w i le ∙ rw missing,
      record {
        shaped = broken-IsShaped w i le;
        only = refl;
        queue = λ j h.
            bits.get-set ct.queue_pieces i true j (queue_in w i le)
            ∙ requeue_missing (bits.get ct.queue_pieces) (bits.get ct.have) i j missing;
      },
    )
  ]

  -- The loop, from one step.
  requeue_step :
      {ct : ChunkTracker BF}
      → IsShaped ct
      → (i : ℕ)
      → (ct' : ChunkTracker BF) × (requeue_valid ct (as_valid_piece ct.lengths i) ≡ ok ct')
        × Requeued ct (i ∷ []) ct'
  unfolding requeue_valid
  requeue_step {ct} w i = elim (dec_lt ct.lengths.last_piece_id i) [
    | yes past ↦ (
      ct,
      rw (as_valid_piece-none ct.lengths i past),
      record { shaped = w; only = refl; queue = λ j h. ground arith },
    )
    | no inside ↦
        let (ct', eq, done) = step_broken w i (omega arith) in
        (ct', rw (as_valid_piece-some w.lengths_valid i (omega arith)) eq, done)
  ]

  requeue_join :
      {ct ct₁ ct₂ : ChunkTracker BF} (i : ℕ) (ids : List ℕ)
      → Requeued ct (i ∷ []) ct₁
      → Requeued ct₁ ids ct₂
      → Requeued ct (i ∷ ids) ct₂
  requeue_join {ct} {ct₁} {ct₂} i ids a b =
      let lengths_eq = ap (λ (t : ChunkTracker BF). t.lengths) a.only in
      let have_eq = ap (λ (t : ChunkTracker BF). bits.get t.have) a.only in
      record {
        shaped = b.shaped;
        only =
            b.only
            ∙ ap
                (λ (t : ChunkTracker BF). record t {
                  queue_pieces = ct₂.queue_pieces;
                  chunk_status = ct₂.chunk_status;
                })
                a.only;
        queue = λ j h. ground (
          arith,
          a.queue j h,
          b.queue j (omega (arith, ap (λ (l : Lengths). l.last_piece_id) lengths_eq)),
          ap (λ (f : ℕ → Bool). f j) have_eq,
        );
      }

  pub requeue_loop_lem :
      (ids : List ℕ) {ct : ChunkTracker BF}
      → IsShaped ct
      → (ct' : ChunkTracker BF) × (requeue_loop ct ids ≡ ok ct') × Requeued ct ids ct'
  unfolding requeue_loop
  requeue_loop_lem [] {ct} w =
      (ct, refl, record { shaped = w; only = refl; queue = λ j h. ground arith })
  requeue_loop_lem (i ∷ ids) {ct} w =
      let (ct₁, eq₁, done₁) = requeue_step w i in
      let (ct₂, eq₂, done₂) = requeue_loop_lem ids done₁.shaped in
      (ct₂, rw eq₁ eq₂, requeue_join i ids done₁ done₂)
