-- ===== src/PieceTracker/Acquire.antt =====
-- `acquire_piece`: what a peer is given to download.
use rust_torrent.Prelude.{
  ℕ, ◌≤◌, ◌<◌, ◌≡◌, ◌⊎◌, refl, sym, ◌∙◌, ap, subst, Bool, true, false, not, ◌&&◌, Bool-cases,
  Option-cases, inl, inr, Option, none, some, List, [], ◌∷◌, length, ◌==◌, ==_refl, ==→eq, lt→ltb,
  arith,
}
use rust_torrent.Prelude.Members.{member}
use rust_torrent.Prelude.HashMap.{find, contains_key, find-absent}
use rust_torrent.Outcome.{Outcome, ok}
use rust_torrent.Bits.{Bits}
use rust_torrent.ChunkTracker.Valid.{piece_bits}
use rust_torrent.ChunkTracker.Start.{FilesFit}
use rust_torrent.ChunkTracker.Methods.{is_piece_have, iter_queued_pieces}
use rust_torrent.PieceTracker.{
  PieceTracker, AcquireRequest, AcquireResult, reserved, none_available, reserve_piece, try_steal,
  find_priority, find_queued, acquire_queued, acquire_piece,
}
use rust_torrent.PieceTracker.Queue.{iter_queued_pieces-total}
use rust_torrent.PieceTracker.Apart.{
  IsApart, reserve_piece-eq, after_reserve, after_reserve-IsApart, get-reserved,
}
use rust_torrent.PieceTracker.TrySteal.{Acquired, mine, try_steal_lem}

find_queued_lem :
    (has : ℕ → Bool) (ps : List ℕ)
    → ((find_queued has ps ≡ none) × ((p : ℕ) → member p ps ≡ true → has p ≡ false))
      ⊎ ((p : ℕ) × (find_queued has ps ≡ some p) × (member p ps ≡ true) × (has p ≡ true))
unfolding find_queued
find_queued_lem has [] = inl (refl, λ p m. cc)
find_queued_lem has (q ∷ ps) = elim (Bool-cases (has q)) [
  | inl t ↦ inr (q, rw t, rw (==_refl q), t)
  | inr f ↦ elim (find_queued_lem has ps) [
    | inl (e, all) ↦ inl (rw f e, λ p m. has_not f p m all)
    | inr (p, e, m, t) ↦ inr (p, rw f e, ground (arith, m), t)
  ]
]
  where
    has_not :
        has q ≡ false
        → (p : ℕ) → member p (q ∷ ps) ≡ true
        → ((r : ℕ) → member r ps ≡ true → has r ≡ false)
        → has p ≡ false
    has_not f p m all = elim (Bool-cases (p == q)) [
      | inl t ↦ ap has (==→eq p q t) ∙ f
      | inr n ↦ all p (rw n at m)
    ]

module _ {BF : Type 0} ⦃bits : Bits BF⦄ {pt : PieceTracker BF} (a : IsApart pt) (now : ℕ)
    (req : AcquireRequest) where
  module _ (p : ℕ) (le : p ≤ pt.chunks.lengths.last_piece_id) where
    reserve-Acquired :
        bits.get pt.chunks.have p ≡ false
        → find p pt.inflight ≡ none
        → req.peer_has_piece p ≡ true
        → (bits.get pt.chunks.queue_pieces p ≡ true) ⊎ (member p req.priority_pieces ≡ true)
        → (IsApart (after_reserve a p le (mine a now req)))
          × Acquired now pt req (after_reserve a p le (mine a now req)) (reserved p)
    reserve-Acquired missing absent has wanted = (
      after_reserve-IsApart a p le (mine a now req) missing,
      (le, has, missing, absent, refl, (λ q. get-reserved a p le q (mine a now req)), refl, wanted),
    )

    have_in : p < bits.len pt.chunks.have
    have_in = omega (arith, a.chunks_valid.have_len, piece_bits a.chunks_valid.lengths_valid)

  -- The priority pieces: what is found, or why nothing is.
  PriorityFound : List ℕ → Option ℕ → Type 0
  PriorityFound ps none =
      (p : ℕ)
      → member p ps ≡ true
      → bits.get pt.chunks.have p ≡ false
      → find p pt.inflight ≡ none
      → req.peer_has_piece p ≡ false
  PriorityFound ps (some p) =
      (p ≤ pt.chunks.lengths.last_piece_id)
      × (bits.get pt.chunks.have p ≡ false)
      × (find p pt.inflight ≡ none)
      × (req.peer_has_piece p ≡ true)
      × (member p ps ≡ true)

  found_later :
      (q : ℕ) (ps : List ℕ) (o : Option ℕ)
      → (bits.get pt.chunks.have q ≡ false
          → find q pt.inflight ≡ none
          → req.peer_has_piece q ≡ false)
      → PriorityFound ps o
      → PriorityFound (q ∷ ps) o
  unfolding PriorityFound
  found_later q ps (some p) not_this (le, missing, absent, has, m) =
      (le, missing, absent, has, ground (arith, m))
  found_later q ps none not_this r = λ p m missing absent. elim (Bool-cases (p == q)) [
    | inl t ↦
        subst (λ (k : ℕ). req.peer_has_piece k ≡ false) (sym (==→eq p q t))
          (not_this (subst (λ (k : ℕ). bits.get pt.chunks.have k ≡ false) (==→eq p q t) missing)
            (subst (λ (k : ℕ). find k pt.inflight ≡ none) (==→eq p q t) absent))
    | inr f ↦ r p (rw f at m) missing absent
  ]

  find_priority_lem :
      (ps : List ℕ)
      → ((q : ℕ) → member q ps ≡ true → q ≤ pt.chunks.lengths.last_piece_id)
      → (o : Option ℕ) × (find_priority pt req.peer_has_piece ps ≡ ok o) × PriorityFound ps o
  unfolding find_priority is_piece_have PriorityFound
  find_priority_lem [] small = (none, refl, λ p m missing absent. cc)
  find_priority_lem (q ∷ ps) small =
      let le = small q (ground arith) in
      let here = lt→ltb q (bits.len pt.chunks.have) (have_in q le) in
      let (o, eq, r) = find_priority_lem ps (λ k m. small k (ground arith)) in
      let is_have = bits.get pt.chunks.have q in
      let contains = contains_key q pt.inflight in
      elim (Bool-cases (not is_have && not contains && req.peer_has_piece q)) [
        | inl t ↦ (
          some q,
          rw (here, t),
          (
            le,
            ground arith,
            find-absent q pt.inflight (ground arith),
            ground arith,
            rw (==_refl q),
          ),
        )
        | inr f ↦ (o, rw (here, f) eq, found_later q ps o (λ missing absent. ground arith) r)
      ]

  -- What is promised for an answer.
  abbrev Answers : Outcome (PieceTracker BF × AcquireResult) → Type 0
  Answers o =
      (pt' : PieceTracker BF) × (r : AcquireResult) × (o ≡ ok (pt', r))
      × IsApart pt'
      × Acquired now pt req pt' r

  acquire_queued_lem :
      (scale : ℕ → ℕ → ℕ)
      → FilesFit pt.chunks.queue_pieces req.file_infos
      → length req.file_infos ≤ length pt.chunks.per_file_bytes
      → PriorityFound req.priority_pieces none
      → Answers (acquire_queued scale now pt req)
  unfolding acquire_queued PriorityFound
  acquire_queued_lem scale fit slots skipped =
      let (queued, eq, good) =
        iter_queued_pieces-total a.chunks_valid.shaped req.file_infos req.file_priorities fit
          slots in
      rw (acquire_queued, eq) (with_queued queued eq good)
    where
      not_inflight : (p : ℕ) → bits.get pt.chunks.queue_pieces p ≡ true → find p pt.inflight ≡ none
      not_inflight p queued_p = elim (Option-cases (find p pt.inflight)) [
        | inl absent ↦ absent
        | inr (info, here) ↦ cc (queued_p, (a.inflight_apart p info here).1)
      ]

      with_queued :
          (queued : List ℕ)
          → iter_queued_pieces pt.chunks req.file_priorities req.file_infos ≡ ok queued
          → ((p : ℕ)
              → member p queued ≡ true
              → (bits.get pt.chunks.queue_pieces p ≡ true) × (p ≤ pt.chunks.lengths.last_piece_id))
          → Answers (elim (find_queued req.peer_has_piece queued) [
            | some piece ↦ reserve_piece now pt piece req.peer
            | none ↦ elim (try_steal scale now pt req 3) [
              | some result ↦ ok result
              | none ↦ ok (pt, none_available)
            ]
          ])
      with_queued queued eq good = elim (find_queued_lem req.peer_has_piece queued) [
        | inr (p, e, m, has) ↦
            let (queued_p, le) = good p m in
            let (apart, acquired) =
              reserve-Acquired p le (a.queue_apart p le queued_p) (not_inflight p queued_p) has
                (inl queued_p) in
            (
              after_reserve a p le (mine a now req),
              reserved p,
              rw e (reserve_piece-eq a p le now req.peer),
              apart,
              acquired,
            )
        | inl (e, nothing) ↦ elim (try_steal_lem a now req scale 3) [
          | inl no_steal ↦
              (pt, none_available, rw (e, no_steal), a, (refl, skipped, (queued, eq, nothing)))
          | inr (pt', r, steal, apart, acquired) ↦ (pt', r, rw (e, steal), apart, acquired)
        ]
      ]

  -- In a piece tracker that satisfies the invariant, for priority pieces of the torrent and files
  -- whose pieces have bits and that have their byte counts, `acquire_piece` returns and keeps the
  -- invariant. A piece that it reserves is one that the peer has, that is not there and was not in
  -- flight, and it was queued or is a priority piece; it is put in flight for the peer and taken
  -- from the queue, with all other pieces left in the queue as they were, and nothing else of the
  -- chunk tracker changes. A piece that it steals was in flight for another peer, the peer has it
  -- and may steal it, it is in flight for the peer now, and all else is as it was. If nothing is
  -- available, nothing changes, the peer has no priority piece that is neither there nor in flight,
  -- and no queued piece that `iter_queued_pieces` yields.
  pub acquire_piece_lem :
      (scale : ℕ → ℕ → ℕ)
      → ((q : ℕ) → member q req.priority_pieces ≡ true → q ≤ pt.chunks.lengths.last_piece_id)
      → FilesFit pt.chunks.queue_pieces req.file_infos
      → length req.file_infos ≤ length pt.chunks.per_file_bytes
      → (pt' : PieceTracker BF) × (r : AcquireResult) × (acquire_piece scale now pt req
          ≡ ok (pt', r))
        × IsApart pt'
        × Acquired now pt req pt' r
  unfolding acquire_piece PriorityFound
  acquire_piece_lem scale small fit slots = elim (try_steal_lem a now req scale 10) [
    | inr (pt', r, steal, apart, acquired) ↦ (pt', r, rw (acquire_piece, steal), apart, acquired)
    | inl no_steal ↦
        let (o, eq, found) = find_priority_lem req.priority_pieces small in
        rw (acquire_piece, no_steal, eq) (with_found o found)
  ]
    where
      with_found :
          (o : Option ℕ)
          → PriorityFound req.priority_pieces o
          → Answers (elim o [
            | some p ↦ reserve_piece now pt p req.peer
            | none ↦ acquire_queued scale now pt req
          ])
      with_found (some p) (le, missing, absent, has, m) =
          let (apart, acquired) = reserve-Acquired p le missing absent has (inr m) in
          (
            after_reserve a p le (mine a now req),
            reserved p,
            reserve_piece-eq a p le now req.peer,
            apart,
            acquired,
          )
      with_found none skipped = acquire_queued_lem scale fit slots skipped
