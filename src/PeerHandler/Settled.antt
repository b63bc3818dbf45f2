-- ===== src/PeerHandler/Settled.antt =====
-- The invariant of the system of the handlers, and what an event changes.
use rust_torrent.Prelude.{
  length, List, sym, ℕ, ◌≤◌, ◌≡◌, refl, ◌∙◌, ap, Bool, true, false, ◌||◌, Bool-cases, inl, inr,
  none, some, ◌==◌, ==→eq, if◌then◌else◌, arith,
}
use rust_torrent.Prelude.Members.{member}
use rust_torrent.Prelude.HashMap.{find, find-insert}
use rust_torrent.Lengths.{Lengths}
use rust_torrent.Bits.{Bits}
use rust_torrent.ChunkTracker.{ChunkTracker}
use rust_torrent.PieceTracker.{InflightPiece, PieceTracker, AcquireRequest, reserved, stolen}
use rust_torrent.PieceTracker.Apart.{IsApart}
use rust_torrent.PieceTracker.TrySteal.{Acquired}
use rust_torrent.PieceTracker.Release.{is_there}
use rust_torrent.PeerHandler.System.{Live}

module _ {BF : Type 0} ⦃bits : Bits BF⦄ where
  -- Queued, in flight, being checked or there.
  abbrev pub is_somewhere : Live BF → ℕ → Bool
  is_somewhere l p =
      bits.get l.pieces.chunks.queue_pieces p
      || (is_there (find p l.pieces.inflight)
          || (member p l.checking || bits.get l.pieces.chunks.have p))

  abbrev pub IsChecking : Live BF → ℕ → Type 0
  IsChecking l p =
      (p ≤ l.pieces.chunks.lengths.last_piece_id)
      × (bits.get l.pieces.chunks.queue_pieces p ≡ false)
      × (bits.get l.pieces.chunks.have p ≡ false)
      × (find p l.pieces.inflight ≡ none)

  -- A piece that is to be completed is there.
  abbrev pub IsCompleting : Live BF → ℕ → Type 0
  IsCompleting l p =
      (p ≤ l.pieces.chunks.lengths.last_piece_id) × (bits.get l.pieces.chunks.have p ≡ true)

  -- The pieces that are to be completed stay there.
  pub still-IsCompleting :
      (l : Live BF) (pt' : PieceTracker BF)
      → pt'.chunks.lengths ≡ l.pieces.chunks.lengths
      → ((p : ℕ) → bits.get l.pieces.chunks.have p ≡ true → bits.get pt'.chunks.have p ≡ true)
      → ((p : ℕ) → member p l.completing ≡ true → IsCompleting l p)
      → (p : ℕ) → member p l.completing ≡ true
      → IsCompleting (record l { pieces = pt' }) p
  still-IsCompleting l pt' same there all p m =
      (omega (arith, (all p m).0, ap (λ (x : Lengths). x.last_piece_id) same), there p (all p m).1)

  pub record IsSettled (start : ChunkTracker BF) (l : Live BF) : Type 0 where
    pub apart : IsApart l.pieces
    pub lengths_eq : l.pieces.chunks.lengths ≡ start.lengths
    pub slots_eq : length l.pieces.chunks.per_file_bytes ≡ length start.per_file_bytes
    pub checking_apart : (p : ℕ) → member p l.checking ≡ true → IsChecking l p
    pub completing_there : (p : ℕ) → member p l.completing ≡ true → IsCompleting l p
    pub kept :
        (p : ℕ)
        → bits.get start.queue_pieces p ≡ true
        → (is_somewhere l p || member p l.failed) ≡ true
    pub there : (p : ℕ) → bits.get start.have p ≡ true → bits.get l.pieces.chunks.have p ≡ true

  -- What an event changes.
  pub record IsMoved (asked : List ℕ) (l l' : Live BF) : Type 0 where
    pub apart : IsApart l'.pieces
    pub lengths_eq : l'.pieces.chunks.lengths ≡ l.pieces.chunks.lengths
    pub slots_eq : length l'.pieces.chunks.per_file_bytes ≡ length l.pieces.chunks.per_file_bytes
    pub checking_apart : (p : ℕ) → member p l'.checking ≡ true → IsChecking l' p
    pub completing_there : (p : ℕ) → member p l'.completing ≡ true → IsCompleting l' p
    pub failed_eq : l'.failed ≡ l.failed
    pub kept : (p : ℕ) → is_somewhere l p ≡ true → is_somewhere l' p ≡ true
    pub gone :
        (p : ℕ) → member p asked ≡ false → is_somewhere l p ≡ false → is_somewhere l' p ≡ false
    pub there :
        (p : ℕ) → bits.get l.pieces.chunks.have p ≡ true → bits.get l'.pieces.chunks.have p ≡ true

  pub moved-IsSettled :
      {asked : List ℕ} (start : ChunkTracker BF) (l l' : Live BF)
      → IsSettled start l
      → IsMoved asked l l'
      → IsSettled start l'
  moved-IsSettled start l l' s m = record {
    apart = m.apart;
    lengths_eq = m.lengths_eq ∙ s.lengths_eq;
    slots_eq = m.slots_eq ∙ s.slots_eq;
    checking_apart = m.checking_apart;
    completing_there = m.completing_there;
    kept = λ p q. elim (Bool-cases (is_somewhere l p)) [
      | inl here ↦ rw (m.kept p here) refl
      | inr gone ↦ let lost = rw gone at (s.kept p q) in rw m.failed_eq (ground (arith, lost))
    ];
    there = λ p h. m.there p (s.there p h);
  }

  -- The queue and the pieces in flight change at most, and no piece that is being checked.
  module _ (start : ChunkTracker BF) (l : Live BF) (s : IsSettled start l) where
    pub stays-IsMoved : (asked : List ℕ) → IsMoved asked l l
    stays-IsMoved asked = record {
      apart = s.apart;
      lengths_eq = refl;
      slots_eq = refl;
      failed_eq = refl;
      checking_apart = s.checking_apart;
      completing_there = s.completing_there;
      kept = λ p h. h;
      gone = λ p a h. h;
      there = λ p h. h;
    }

    apart_from :
        (p q : ℕ)
        → IsChecking l q
        → (bits.get l.pieces.chunks.queue_pieces p ≡ true)
        → (q == p) ≡ false
    apart_from p q c queued = elim (Bool-cases (q == p)) [
      | inl t ↦ cc (queued, c.1, ap (bits.get l.pieces.chunks.queue_pieces) (==→eq q p t))
      | inr f ↦ f
    ]

    pub reserved-IsMoved :
        (now : ℕ) (req : AcquireRequest) (pt' : PieceTracker BF) (p : ℕ)
        → IsApart pt'
        → Acquired now l.pieces req pt' (reserved p)
        → ((q : ℕ) → member q req.priority_pieces ≡ true → member q l.checking ≡ false)
        → IsMoved req.priority_pieces l (record l { pieces = pt' })
    reserved-IsMoved now req pt' p apart (le, has, missing, absent, inflight, queue, only, wanted)
          free =
        let mine : InflightPiece = record { peer = req.peer; started = now } in
        let have_at = λ (q : ℕ). ap (λ (t : ChunkTracker BF). bits.get t.have q) only in
        let found : (q : ℕ)
            → find q pt'.inflight ≡ (if p == q then some mine else find q l.pieces.inflight) =
          λ q. ap (find q) inflight ∙ find-insert p q mine l.pieces.inflight in
        let lengths_eq = ap (λ (t : ChunkTracker BF). t.lengths) only in
        record {
          apart = apart;
          lengths_eq = lengths_eq;
          failed_eq = refl;
          slots_eq = ap (λ (t : ChunkTracker BF). length t.per_file_bytes) only;
          completing_there =
              still-IsCompleting l pt' (ap (λ (t : ChunkTracker BF). t.lengths) only)
                (λ q h. have_at q ∙ h) s.completing_there;
          checking_apart = λ q m.
              let c = s.checking_apart q m in
              let other : (p == q) ≡ false = elim (Bool-cases (p == q)) [
                | inr f ↦ f
                | inl t ↦ elim wanted [
                  | inl queued ↦
                      cc (queued, c.1, ap (bits.get l.pieces.chunks.queue_pieces) (==→eq p q t))
                  | inr priority ↦
                      cc (m, free p priority, ap (λ (k : ℕ). member k l.checking) (==→eq p q t))
                ]
              ] in
              let other' : (q == p) ≡ false = ground (arith, other) in
              (
                omega (arith, c.0, ap (λ (x : Lengths). x.last_piece_id) lengths_eq),
                queue q ∙ rw other' (c.1),
                have_at q ∙ c.2,
                found q ∙ rw other (c.3),
              );
          kept = λ q h. elim (Bool-cases (p == q)) [
            | inl t ↦
                let f : find q pt'.inflight ≡ some mine = found q ∙ rw t refl in rw f (ground arith)
            | inr f ↦
                let other' : (q == p) ≡ false = ground (arith, f) in
                let same : find q pt'.inflight ≡ find q l.pieces.inflight = found q ∙ rw f refl in
                let queued : bits.get pt'.chunks.queue_pieces q
                    ≡ bits.get l.pieces.chunks.queue_pieces q =
                  queue q ∙ rw other' refl in
                rw (same, queued, have_at q) h
          ];
          gone = λ q a h. elim (Bool-cases (p == q)) [
            | inl t ↦ elim wanted [
              | inl queued ↦
                  let queued' =
                    ap (bits.get l.pieces.chunks.queue_pieces) (sym (==→eq p q t)) ∙ queued in
                  let here : is_somewhere l q ≡ true = rw queued' refl in cc (here, h)
              | inr priority ↦
                  cc
                    (a, ap (λ (k : ℕ). member k req.priority_pieces) (sym (==→eq p q t)) ∙ priority)
            ]
            | inr f ↦
                let other' : (q == p) ≡ false = ground (arith, f) in
                let same : find q pt'.inflight ≡ find q l.pieces.inflight = found q ∙ rw f refl in
                let queued : bits.get pt'.chunks.queue_pieces q
                    ≡ bits.get l.pieces.chunks.queue_pieces q =
                  queue q ∙ rw other' refl in
                rw (same, queued, have_at q) h
          ];
          there = λ q h. have_at q ∙ h;
        }

    pub stolen-IsMoved :
        (now : ℕ) (req : AcquireRequest) (pt' : PieceTracker BF) (p from : ℕ)
        → IsApart pt'
        → Acquired now l.pieces req pt' (stolen p from)
        → IsMoved req.priority_pieces l (record l { pieces = pt' })
    stolen-IsMoved now req pt' p from apart (info, old, peer_eq, ne, has, can, chunks, found) =
        let get_at = λ (f : ChunkTracker BF → BF) (q : ℕ).
          ap (λ (t : ChunkTracker BF). bits.get (f t) q) chunks in
        record {
          apart = apart;
          lengths_eq = ap (λ (t : ChunkTracker BF). t.lengths) chunks;
          failed_eq = refl;
          slots_eq = ap (λ (t : ChunkTracker BF). length t.per_file_bytes) chunks;
          completing_there =
              still-IsCompleting l pt' (ap (λ (t : ChunkTracker BF). t.lengths) chunks)
                (λ q h. get_at (λ t. t.have) q ∙ h) s.completing_there;
          checking_apart = λ q m.
              let c = s.checking_apart q m in
              let other : (p == q) ≡ false = elim (Bool-cases (p == q)) [
                | inr f ↦ f
                | inl t ↦ cc (old, c.3, ap (λ (k : ℕ). find k l.pieces.inflight) (==→eq p q t))
              ] in
              (
                omega (arith, c.0, ap (λ (t : ChunkTracker BF). t.lengths.last_piece_id) chunks),
                get_at (λ t. t.queue_pieces) q ∙ c.1,
                get_at (λ t. t.have) q ∙ c.2,
                found q ∙ rw other (c.3),
              );
          kept = λ q h. elim (Bool-cases (p == q)) [
            | inl t ↦
                let f : find q pt'.inflight ≡ some (record { peer = req.peer; started = now }) =
                  found q ∙ rw t refl in
                rw f (ground arith)
            | inr f ↦
                let same : find q pt'.inflight ≡ find q l.pieces.inflight = found q ∙ rw f refl in
                rw (same, get_at (λ t. t.queue_pieces) q, get_at (λ t. t.have) q) h
          ];
          gone = λ q a h. elim (Bool-cases (p == q)) [
            | inl t ↦
                let old' = ap (λ (k : ℕ). find k l.pieces.inflight) (sym (==→eq p q t)) ∙ old in
                let here : is_somewhere l q ≡ true = rw old' (ground arith) in cc (here, h)
            | inr f ↦
                let same : find q pt'.inflight ≡ find q l.pieces.inflight = found q ∙ rw f refl in
                rw (same, get_at (λ t. t.queue_pieces) q, get_at (λ t. t.have) q) h
          ];
          there = λ q h. get_at (λ t. t.have) q ∙ h;
        }
