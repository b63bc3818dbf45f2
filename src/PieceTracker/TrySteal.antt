-- ===== src/PieceTracker/TrySteal.antt =====
-- `try_steal`, and what `acquire_piece` promises for each result.
use rust_torrent.Prelude.{
  ℕ, ◌≤◌, ◌≡◌, ◌≢◌, ◌⊎◌, refl, sym, ◌∙◌, subst, true, false, Bool-cases, Option-cases, inl, inr,
  Option, none, some, List, ◌==◌, ==→eq, if◌then◌else◌, arith,
}
use rust_torrent.Prelude.Members.{member}
use rust_torrent.Prelude.HashMap.{
  find, insert, replace_value, contains_key, find-replace_value, replace_value-UniqueKeys,
}
use rust_torrent.Outcome.{ok}
use rust_torrent.Bits.{Bits}
use rust_torrent.ChunkTracker.Methods.{iter_queued_pieces}
use rust_torrent.PieceTracker.{
  InflightPiece, PieceTracker, Inflight, AcquireRequest, AcquireResult, reserved, stolen,
  none_available, slowest, steal_candidates, steal_entry, try_steal,
}
use rust_torrent.PieceTracker.Steal.{slowest-entry, IsCandidate, candidates-IsCandidate}
use rust_torrent.PieceTracker.Apart.{IsApart}

replaced_entry :
    (p q : ℕ) (new i : InflightPiece) (m : Inflight)
    → find q (replace_value p new m) ≡ some i
    → (p ≡ q) ⊎ (find q m ≡ some i)
replaced_entry p q new i m h =
    let found : find q (replace_value p new m)
        ≡ (if p == q then (if contains_key p m then some new else none) else find q m) =
      find-replace_value p q new m in
    elim (Bool-cases (p == q)) [ inl t ↦ inl (==→eq p q t) | inr f ↦ inr (sym (rw f at found) ∙ h) ]

find-replaced :
    (p q : ℕ) (new i : InflightPiece) (m : Inflight)
    → find p m ≡ some i
    → find q (replace_value p new m) ≡ (if p == q then some new else find q m)
find-replaced p q new i m h = ground (arith, find-replace_value p q new m)

module _ {BF : Type 0} ⦃bits : Bits BF⦄ where
  -- What `acquire_piece` promises for each of its results.
  abbrev pub Acquired :
      ℕ → PieceTracker BF → AcquireRequest → PieceTracker BF → AcquireResult → Type 0
  Acquired now pt req pt' (reserved p) =
      (p ≤ pt.chunks.lengths.last_piece_id)
      × (req.peer_has_piece p ≡ true)
      × (bits.get pt.chunks.have p ≡ false)
      × (find p pt.inflight ≡ none)
      × (pt'.inflight ≡ insert p (record { peer = req.peer; started = now }) pt.inflight)
      × ((q : ℕ)
          → bits.get pt'.chunks.queue_pieces q
            ≡ (if q == p then false else bits.get pt.chunks.queue_pieces q))
      × (pt'.chunks ≡ record pt.chunks { queue_pieces = pt'.chunks.queue_pieces })
      × ((bits.get pt.chunks.queue_pieces p ≡ true) ⊎ (member p req.priority_pieces ≡ true))
  Acquired now pt req pt' (stolen p from) =
      (info : InflightPiece) × (find p pt.inflight ≡ some info)
      × (info.peer ≡ from)
      × (from ≢ req.peer)
      × (req.peer_has_piece p ≡ true)
      × (req.can_steal p ≡ true)
      × (pt'.chunks ≡ pt.chunks)
      × ((q : ℕ)
          → find q pt'.inflight ≡ (
              if p == q
              then some (record { peer = req.peer; started = now })
              else find q pt.inflight))
  Acquired now pt req pt' none_available =
      (pt' ≡ pt)
      × ((p : ℕ)
          → member p req.priority_pieces ≡ true
          → bits.get pt.chunks.have p ≡ false
          → find p pt.inflight ≡ none
          → req.peer_has_piece p ≡ false)
      × ((queued : List ℕ) × (iter_queued_pieces pt.chunks req.file_priorities req.file_infos
            ≡ ok queued)
          × ((p : ℕ) → member p queued ≡ true → req.peer_has_piece p ≡ false))

  module _ {pt : PieceTracker BF} (a : IsApart pt) (now : ℕ) (req : AcquireRequest) where
    -- An answer of `try_steal`.
    abbrev pub Stolen : Option (PieceTracker BF × AcquireResult) → Type 0
    Stolen o =
        (o ≡ none)
        ⊎ ((pt' : PieceTracker BF) × (r : AcquireResult) × (o ≡ some (pt', r))
            × IsApart pt'
            × Acquired now pt req pt' r)

    abbrev pub mine : InflightPiece
    mine = record { peer = req.peer; started = now }

    replaced-IsApart :
        (p : ℕ) {info : InflightPiece}
        → find p pt.inflight ≡ some info
        → IsApart (record pt { inflight = replace_value p mine pt.inflight })
    replaced-IsApart p {info} found = record {
      chunks_valid = a.chunks_valid;
      unique = replace_value-UniqueKeys p mine pt.inflight a.unique;
      inflight_apart = λ q i h. elim (replaced_entry p q mine i pt.inflight h) [
        | inl e ↦
            subst
              (λ (k : ℕ).
                (k ≤ pt.chunks.lengths.last_piece_id)
                × (bits.get pt.chunks.queue_pieces k ≡ false)
                × (bits.get pt.chunks.have k ≡ false))
              e (a.inflight_apart p info found)
        | inr old ↦ a.inflight_apart q i old
      ];
      queue_apart = a.queue_apart;
    }

    steal_found :
        (p : ℕ) (info : InflightPiece) {min_elapsed : ℕ}
        → IsCandidate now min_elapsed req pt.inflight p info
        → Stolen (steal_entry now pt req (some (p, info)))
    unfolding steal_entry
    steal_found p info c = elim (Bool-cases (req.can_steal p)) [
      | inl can ↦ inr (
        record pt { inflight = replace_value p mine pt.inflight },
        stolen p info.peer,
        rw can,
        replaced-IsApart p c.found,
        (
          info,
          c.found,
          refl,
          c.other_peer,
          c.peer_has,
          can,
          refl,
          λ q. find-replaced p q mine info pt.inflight c.found,
        ),
      )
      | inr cannot ↦ inl (rw cannot)
    ]

    steal_slowest :
        (min_elapsed : ℕ)
        → Stolen (
            steal_entry now pt req (slowest now (steal_candidates now min_elapsed req pt.inflight)))
    unfolding steal_entry
    steal_slowest min_elapsed =
        let m = steal_candidates now min_elapsed req pt.inflight in
        elim (Option-cases (slowest now m)) [
          | inl nobody ↦ inl (rw nobody)
          | inr ((p, info), e) ↦ rw e (
              steal_found p info (
                slowest-entry (IsCandidate now min_elapsed req pt.inflight) now m (p, info)
                  (candidates-IsCandidate now min_elapsed req pt.inflight a.unique) e))
        ]

    pub try_steal_lem :
        (scale : ℕ → ℕ → ℕ) (threshold : ℕ) → Stolen (try_steal scale now pt req threshold)
    unfolding try_steal
    try_steal_lem scale threshold = with_avg req.peer_avg_time
      where
        with_avg :
            (avg : Option ℕ)
            → Stolen (elim avg [
              | none ↦ none
              | some my_avg ↦
                  steal_entry now pt req
                    (slowest now (steal_candidates now (scale my_avg threshold) req pt.inflight))
            ])
        with_avg none = inl refl
        with_avg (some my_avg) = steal_slowest (scale my_avg threshold)
