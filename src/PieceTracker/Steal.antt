-- ===== src/PieceTracker/Steal.antt =====
-- Which piece is stolen: the search among the candidates.
use rust_torrent.Prelude.{
  ℕ, ◌≤◌, ◌≡◌, ◌≢◌, subst, Bool, true, false, not, ◌&&◌, Bool-cases, inl, inr, some, [], ◌∷◌, ltb,
  leb, ◌==◌, if◌then◌else◌, keep_if, arith,
}
use rust_torrent.Prelude.HashMap.{
  find, AllEntries, UniqueKeys, AllEntries-map, AllEntries-keep_if, AllEntries-find,
}
use mathlib.Core.Option.{some-injective}
use rust_torrent.PieceTracker.{
  InflightPiece, AcquireRequest, Inflight, elapsed, steal_candidates, slowest_from, slowest,
}

module _ {ℓ} (P : ℕ → InflightPiece → Type ℓ) (now : ℕ) where
  either :
      (b : Bool) (x y : ℕ × InflightPiece)
      → P x.0 x.1
      → P y.0 y.1
      → P (if b then x else y).0 (if b then x else y).1
  either true x y px py = px
  either false x y px py = py

  slowest_from-entry :
      (best : ℕ × InflightPiece) (m : Inflight)
      → P best.0 best.1
      → AllEntries P m
      → P (slowest_from now best m).0 (slowest_from now best m).1
  unfolding slowest_from
  slowest_from-entry best [] p a = p
  slowest_from-entry best (e ∷ m) p a =
      slowest_from-entry (if ltb (elapsed now e.1) (elapsed now best.1) then best else e) m
        (either (ltb (elapsed now e.1) (elapsed now best.1)) best e p a.0) a.1

  -- What holds of all entries holds of the slowest.
  pub slowest-entry :
      (m : Inflight) (e : ℕ × InflightPiece) → AllEntries P m → slowest now m ≡ some e → P e.0 e.1
  unfolding slowest
  slowest-entry [] e a h = cc
  slowest-entry (x ∷ m) e a h =
      subst (λ (y : ℕ × InflightPiece). P y.0 y.1) (some-injective _ _ h)
        (slowest_from-entry x m a.0 a.1)

pick_max :
    (now : ℕ) (best e : ℕ × InflightPiece)
    → let y = if ltb (elapsed now e.1) (elapsed now best.1) then best else e in
      (elapsed now best.1 ≤ elapsed now y.1) × (elapsed now e.1 ≤ elapsed now y.1)
pick_max now best e = elim (Bool-cases (ltb (elapsed now e.1) (elapsed now best.1))) [
  | inl t ↦ rw t (ground arith)
  | inr f ↦ rw f (ground arith)
]

slowest_from-max :
    (now : ℕ) (best : ℕ × InflightPiece) (m : Inflight)
    → (elapsed now best.1 ≤ elapsed now (slowest_from now best m).1)
      × AllEntries (λ k v. elapsed now v ≤ elapsed now (slowest_from now best m).1) m
unfolding slowest_from
slowest_from-max now best [] = (omega arith, tt)
slowest_from-max now best (e ∷ m) =
    let p = pick_max now best e in
    let r =
      slowest_from-max now (if ltb (elapsed now e.1) (elapsed now best.1) then best else e) m in
    (omega (arith, p, r.0), (omega (arith, p, r.0), r.1))

-- The candidate that the search for the slowest piece chooses has been in flight at least as long
-- as any other candidate.
pub slowest-max :
    (now : ℕ) (m : Inflight) (e : ℕ × InflightPiece)
    → slowest now m ≡ some e
    → AllEntries (λ k v. elapsed now v ≤ elapsed now e.1) m
unfolding slowest
slowest-max now [] e h = tt
slowest-max now (x ∷ m) e h =
    let r = slowest_from-max now x m in
    subst (λ (y : ℕ × InflightPiece). AllEntries (λ k v. elapsed now v ≤ elapsed now y.1) (x ∷ m))
      (some-injective _ _ h) (r.0, r.1)

-- What a candidate satisfies.
pub record IsCandidate (now min_elapsed : ℕ) (req : AcquireRequest) (inflight : Inflight) (p : ℕ)
    (info : InflightPiece) : Type 0 where
  pub found : find p inflight ≡ some info
  pub other_peer : info.peer ≢ req.peer
  pub peer_has : req.peer_has_piece p ≡ true
  pub slow : min_elapsed ≤ elapsed now info

pub candidates-IsCandidate :
    (now min_elapsed : ℕ) (req : AcquireRequest) (inflight : Inflight)
    → UniqueKeys inflight
    → AllEntries
        (IsCandidate now min_elapsed req inflight)
        (steal_candidates now min_elapsed req inflight)
unfolding steal_candidates
candidates-IsCandidate now min_elapsed req inflight u =
    AllEntries-map _ (IsCandidate now min_elapsed req inflight)
      (λ p info h. candidate p info h.0 h.1) (keep_if _ inflight)
      (AllEntries-keep_if (λ k v. find k inflight ≡ some v) _ inflight (AllEntries-find inflight u))
  where
    candidate :
        (p : ℕ) (info : InflightPiece)
        → find p inflight ≡ some info
        → (not (info.peer == req.peer)
            && req.peer_has_piece p
            && leb min_elapsed (elapsed now info))
          ≡ true
        → IsCandidate now min_elapsed req inflight p info
    candidate p info found h = record {
      found = found;
      other_peer = ground arith;
      peer_has = ground arith;
      slow = ground arith;
    }
