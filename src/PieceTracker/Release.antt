-- ===== src/PieceTracker/Release.antt =====
-- Pieces that go back to the queue: those of a peer that is gone, and all of them at the end.
use rust_torrent.Prelude.{
  ℕ, ◌≤◌, ◌≡◌, refl, sym, ◌∙◌, ap, Bool, true, false, not, ◌&&◌, ◌||◌, Bool-cases, Option-cases,
  inl, inr, Option, none, some, List, [], ◌∷◌, length, map, ◌==◌, ==_refl, ==→eq, if◌then◌else◌,
  arith,
}
use rust_torrent.Prelude.Members.{member}
use rust_torrent.Prelude.HashMap.{find, remove, contains_key, UniqueKeys, find-remove}
use rust_torrent.Outcome.{ok}
use rust_torrent.Lengths.{Lengths}
use rust_torrent.Bits.{Bits}
use rust_torrent.ChunkTracker.{ChunkTracker}
use rust_torrent.ChunkTracker.Valid.{IsValid}
use rust_torrent.ChunkTracker.Marks.{mark_piece_broken_lem}
use rust_torrent.PieceTracker.{
  InflightPiece, PieceTracker, Inflight, owned_by, release_loop, release_pieces_owned_by,
  requeue_all, into_chunks,
}
use rust_torrent.PieceTracker.Apart.{IsApart, without-IsApart, requeue_lem}

abbrev pub is_there : Option InflightPiece → Bool
is_there none = false
is_there (some info) = true

-- The entry is the peer's.
abbrev pub is_owned : ℕ → Option InflightPiece → Bool
is_owned peer none = false
is_owned peer (some info) = info.peer == peer

member-owned_by :
    (peer q : ℕ) (m : Inflight)
    → UniqueKeys m
    → member q (owned_by peer m) ≡ is_owned peer (find q m)
unfolding owned_by
member-owned_by peer q [] u = refl
member-owned_by peer q ((j, info) ∷ m) u =
    let rec = member-owned_by peer q m u.1 in
    elim (Bool-cases (j == q)) [
      | inl t ↦
          let absent = ap (λ (k : ℕ). find k m) (sym (==→eq j q t)) ∙ u.0 in
          elim (Bool-cases (info.peer == peer)) [
            | inl mine ↦ rw (t, mine) (ground arith)
            | inr other ↦ rw (t, other) (rec ∙ ap (is_owned peer) absent)
          ]
      | inr f ↦ elim (Bool-cases (info.peer == peer)) [
        | inl mine ↦ rw (f, mine) (ground (arith, rec))
        | inr other ↦ rw (f, other) rec
      ]
    ]

member-keys : (q : ℕ) (m : Inflight) → member q (map (λ (p, info). p) m) ≡ contains_key q m
member-keys q [] = refl
member-keys q ((j, info) ∷ m) = ground (arith, member-keys q m)

find-remove_self : (p : ℕ) (m : Inflight) → find p (remove p m) ≡ none
find-remove_self p m = find-remove p p m ∙ rw (==_refl p)

-- The queue with some pieces more.
queue_join :
    (queue queue₁ queue₂ have : ℕ → Bool) (p q : ℕ) (ps : List ℕ)
    → queue₁ q ≡ (if q == p && not (have p) then true else queue q)
    → queue₂ q ≡ (member q ps && not (have q) || queue₁ q)
    → queue₂ q ≡ ((q == p || member q ps) && not (have q) || queue q)
queue_join queue queue₁ queue₂ have p q ps e₁ e₂ = elim (Bool-cases (q == p)) [
  | inl t ↦ ground (arith, ap have (==→eq q p t))
  | inr f ↦ ground arith
]

found_join :
    (m : Inflight) (p q : ℕ) (ps : List ℕ) {found : Option InflightPiece}
    → found ≡ (if member q ps then none else find q (remove p m))
    → found ≡ (if q == p || member q ps then none else find q m)
found_join m p q ps e = ground (arith, find-remove p q m)

module _ {BF : Type 0} ⦃bits : Bits BF⦄ where
  -- Nothing but the queue and the chunk bits differs.
  abbrev pub Requeued : ChunkTracker BF → ChunkTracker BF → Type 0
  Requeued ct ct' =
      ct' ≡ record ct { queue_pieces = ct'.queue_pieces; chunk_status = ct'.chunk_status }

  Requeued_trans :
      (ct ct₁ ct₂ : ChunkTracker BF) → Requeued ct ct₁ → Requeued ct₁ ct₂ → Requeued ct ct₂
  Requeued_trans ct ct₁ ct₂ r s =
      s
      ∙ ap
          (λ (t : ChunkTracker BF). record t {
            queue_pieces = ct₂.queue_pieces;
            chunk_status = ct₂.chunk_status;
          })
          r

  release_loop_lem :
      (ps : List ℕ) {pt : PieceTracker BF}
      → IsApart pt
      → ((q : ℕ) → member q ps ≡ true → q ≤ pt.chunks.lengths.last_piece_id)
      → (pt' : PieceTracker BF) × (release_loop pt ps ≡ ok pt')
        × IsApart pt'
        × (pt'.chunks.have ≡ pt.chunks.have)
        × ((q : ℕ) → find q pt'.inflight ≡ (if member q ps then none else find q pt.inflight))
        × ((q : ℕ)
            → bits.get pt'.chunks.queue_pieces q ≡ (
                member q ps && not (bits.get pt.chunks.have q)
                || bits.get pt.chunks.queue_pieces q))
        × Requeued pt.chunks pt'.chunks
  unfolding release_loop
  release_loop_lem [] {pt} a small = (pt, refl, a, refl, (λ q. refl), (λ q. refl), refl)
  release_loop_lem (p ∷ ps) {pt} a small =
      let le = small p (ground arith) in
      let (ct, eq₁, apart₁, lengths_eq, have_eq, queue₁, only₁) =
        requeue_lem (without-IsApart a p) p le (find-remove_self p pt.inflight) in
      let last = ap (λ (l : Lengths). l.last_piece_id) lengths_eq in
      let have_at = λ (q : ℕ). ap (λ (b : BF). bits.get b q) have_eq in
      let (pt', eq₂, apart₂, have₂, found₂, queue₂, only₂) =
        release_loop_lem ps apart₁ (λ q m. omega (arith, last, small q (ground arith))) in
      (
        pt',
        rw eq₁ eq₂,
        apart₂,
        have₂ ∙ have_eq,
        (λ q. found_join pt.inflight p q ps (found₂ q)),
        (λ q.
            queue_join (bits.get pt.chunks.queue_pieces) (bits.get ct.queue_pieces)
              (bits.get pt'.chunks.queue_pieces) (bits.get pt.chunks.have) p q ps (queue₁ q)
              (queue₂ q ∙ rw (have_at q))),
        Requeued_trans pt.chunks ct pt'.chunks only₁ only₂,
      )

  owned_small :
      {pt : PieceTracker BF}
      → IsApart pt
      → (q : ℕ) (b : Option InflightPiece → Bool) → b none ≡ false
      → b (find q pt.inflight) ≡ true
      → (q ≤ pt.chunks.lengths.last_piece_id) × (bits.get pt.chunks.have q ≡ false)
  owned_small {pt} a q b off on = elim (Option-cases (find q pt.inflight)) [
    | inl absent ↦ cc (off, on, ap b absent)
    | inr (info, here) ↦ let r = a.inflight_apart q info here in (r.0, r.2)
  ]

  queue_owned :
      {pt : PieceTracker BF}
      → IsApart pt
      → (q : ℕ) (b : Option InflightPiece → Bool) → b none ≡ false
      → (b (find q pt.inflight) && not (bits.get pt.chunks.have q)
          || bits.get pt.chunks.queue_pieces q)
        ≡ (b (find q pt.inflight) || bits.get pt.chunks.queue_pieces q)
  queue_owned {pt} a q b off = elim (Bool-cases (b (find q pt.inflight))) [
    | inl on ↦ rw (on, (owned_small a q b off on).1)
    | inr absent ↦ rw absent
  ]

  -- In a piece tracker that satisfies the invariant, `release_pieces_owned_by` returns with the
  -- number of entries of the peer and keeps the invariant; the pieces in flight for the peer are
  -- queued and no longer in flight, all others stay in flight or queued as they were, and nothing
  -- of the chunk tracker but the queue and the chunk bits changes.
  pub release_pieces_owned_by_lem :
      {pt : PieceTracker BF}
      → IsApart pt
      → (peer : ℕ)
      → (pt' : PieceTracker BF) × (release_pieces_owned_by pt peer
          ≡ ok (pt', length (owned_by peer pt.inflight)))
        × IsApart pt'
        × (pt'.chunks.have ≡ pt.chunks.have)
        × ((q : ℕ)
            → find q pt'.inflight
              ≡ (if is_owned peer (find q pt.inflight) then none else find q pt.inflight))
        × ((q : ℕ)
            → bits.get pt'.chunks.queue_pieces q
              ≡ (is_owned peer (find q pt.inflight) || bits.get pt.chunks.queue_pieces q))
        × Requeued pt.chunks pt'.chunks
  unfolding release_pieces_owned_by
  release_pieces_owned_by_lem {pt} a peer =
      let owned = λ (q : ℕ). member-owned_by peer q pt.inflight a.unique in
      let (pt', eq, apart, have_eq, found, queue, only) =
        release_loop_lem (owned_by peer pt.inflight) a
          (λ q m. (owned_small a q (is_owned peer) refl (sym (owned q) ∙ m)).0) in
      (
        pt',
        rw eq,
        apart,
        have_eq,
        (λ q. found q ∙ rw (owned q)),
        (λ q. queue q ∙ rw (owned q) (queue_owned a q (is_owned peer) refl)),
        only,
      )

  requeue_all_lem :
      (ps : List ℕ) {ct : ChunkTracker BF}
      → IsValid ct
      → ((q : ℕ) → member q ps ≡ true → q ≤ ct.lengths.last_piece_id)
      → (ct' : ChunkTracker BF) × (requeue_all ps ct ≡ ok ct')
        × IsValid ct'
        × (ct'.have ≡ ct.have)
        × ((q : ℕ)
            → bits.get ct'.queue_pieces q
              ≡ (member q ps && not (bits.get ct.have q) || bits.get ct.queue_pieces q))
  unfolding requeue_all
  requeue_all_lem [] {ct} v small = (ct, refl, v, refl, (λ q. refl))
  requeue_all_lem (p ∷ ps) {ct} v small =
      let (ct₁, eq₁, v₁, only, queue₁, chunks₁) =
        mark_piece_broken_lem v p (small p (ground arith)) in
      let last = ap (λ (t : ChunkTracker BF). t.lengths.last_piece_id) only in
      let have_eq = ap (λ (t : ChunkTracker BF). t.have) only in
      let have_at = λ (q : ℕ). ap (λ (b : BF). bits.get b q) have_eq in
      let (ct₂, eq₂, v₂, have₂, queue₂) =
        requeue_all_lem ps v₁ (λ q m. omega (arith, last, small q (ground arith))) in
      (
        ct₂,
        rw eq₁ eq₂,
        v₂,
        have₂ ∙ have_eq,
        (λ q.
            queue_join (bits.get ct.queue_pieces) (bits.get ct₁.queue_pieces)
              (bits.get ct₂.queue_pieces) (bits.get ct.have) p q ps (queue₁ q)
              (queue₂ q ∙ rw (have_at q))),
      )

  -- In a piece tracker that satisfies the invariant, `into_chunks` returns a chunk tracker that
  -- satisfies its own, in which exactly the pieces that were in flight or queued are queued, and
  -- the pieces that are there have not changed.
  pub into_chunks_lem :
      {pt : PieceTracker BF}
      → IsApart pt
      → (ct : ChunkTracker BF) × (into_chunks pt ≡ ok ct)
        × IsValid ct
        × (ct.have ≡ pt.chunks.have)
        × ((q : ℕ)
            → bits.get ct.queue_pieces q
              ≡ (contains_key q pt.inflight || bits.get pt.chunks.queue_pieces q))
  unfolding into_chunks
  into_chunks_lem {pt} a =
      let keys = λ (q : ℕ). member-keys q pt.inflight in
      let (ct, eq, valid, have_eq, queue) =
        requeue_all_lem (map (λ (p, info). p) pt.inflight) a.chunks_valid
          (λ q m. (owned_small a q is_there refl (sym (keys q) ∙ m)).0) in
      (ct, eq, valid, have_eq, (λ q. queue q ∙ rw (keys q) (queue_owned a q is_there refl)))
