-- ===== src/Lengths/Pieces.antt =====
-- The pieces of a well-formed torrent: their lengths, and which of them meet a range of bytes.
use rust_torrent.Prelude.{
  ℕ, zero, suc, ◌+◌, ◌-◌, ◌*◌, ◌/◌, ◌%◌, ◌≤◌, ◌<◌, ◌≡◌, ◌↔◌, ◌∙◌, ap, min, some, List, [], ◌∷◌, map,
  Bool-cases, inl, inr, ◌==◌, ==_refl, if◌then◌else◌, u64_mod, as_u32, add_u64, div_ceil,
  range_from, arith, ==→eq,
}
use rust_torrent.Lengths.{
  Lengths, PieceInfo, CurrentPiece, iter_piece_infos, total_pieces, piece_length,
  iter_pieces_within_offset, compute_current_piece,
}
use rust_torrent.Lengths.Valid.{IsValid, ids_bound}
use native.Mathlib.Decide.{dec_lt}
use rust_torrent.Prelude.Sums.{sum_range}
use rust_torrent.Prelude.Division.{lt-div_ceil_iff, div-le_iff, div_parts}

abbrev pub sum_len : List PieceInfo → ℕ
sum_len [] = 0
sum_len (i ∷ is) = i.len + sum_len is

pub total_pieces-eq : {l : Lengths} → IsValid l → total_pieces l ≡ l.last_piece_id + 1
unfolding total_pieces
total_pieces-eq v = omega (arith, ids_bound v)

if_at {ℓ} : {A : Type ℓ} (a b : ℕ) (x y : A) → a ≡ b → (if a == b then x else y) ≡ x
if_at a b x y e = rw (e, ==_refl b)

if_below {ℓ} : {A : Type ℓ} (a b : ℕ) (x y : A) → a < b → (if a == b then x else y) ≡ y
if_below a b x y h = elim (Bool-cases (a == b)) [
  | inl t ↦ absurd (omega (arith, ==→eq a b t))
  | inr f ↦ rw f
]

-- From piece `i` on, the pieces hold the bytes that the ones before leave.
sum_len-range_from :
    (last pl last_len i n : ℕ)
    → i + suc n ≡ last + 1
    → sum_len (
        map
          (λ idx. record { piece_index = idx; len = if idx == last then last_len else pl })
          (range_from i (suc n)))
      ≡ n * pl + last_len
sum_len-range_from last pl last_len i zero e = omega (arith, if_at i last last_len pl (omega arith))
sum_len-range_from last pl last_len i (suc n) e = omega (
  arith,
  if_below i last last_len pl (omega arith),
  sum_len-range_from last pl last_len (i + 1) n (omega arith),
)

-- In a well-formed torrent, the lengths of the pieces that `iter_piece_infos` lists add up to the
-- length of the torrent.
pub sum_len-iter_piece_infos :
    {l : Lengths} → IsValid l → sum_len (iter_piece_infos l) ≡ l.total_length
unfolding iter_piece_infos
sum_len-iter_piece_infos {l} v =
    let count : total_pieces l ≡ suc l.last_piece_id = omega (arith, total_pieces-eq v) in
    rw count (
      sum_len-range_from l.last_piece_id l.piece_length l.last_piece_length 0 l.last_piece_id
        (omega arith)
      ∙ v.covers)

below_total :
    {l : Lengths}
    → IsValid l
    → (a : ℕ) → a ≤ l.total_length
    → a ≤ (l.last_piece_id + 1) * l.piece_length
below_total {l} v a h = omega (arith, v.last_le, v.covers)

-- A piece number below 2 ^ 32 survives the cast.
div_fits :
    {l : Lengths}
    → IsValid l
    → (a : ℕ) → a ≤ l.total_length
    → as_u32 (a / l.piece_length) ≡ a / l.piece_length
div_fits {l} v a h =
    let le =
      (div-le_iff a (l.last_piece_id + 1) l.piece_length v.piece_pos).1
        (omega (arith, below_total v a h, v.piece_pos)) in
    omega (arith, ids_bound v)

div_ceil_fits :
    {l : Lengths}
    → IsValid l
    → (a : ℕ) → a ≤ l.total_length
    → as_u32 (div_ceil a l.piece_length) ≡ div_ceil a l.piece_length
div_ceil_fits {l} v a h = elim (dec_lt (l.last_piece_id + 1) (div_ceil a l.piece_length)) [
  | yes lt ↦ absurd (
      omega (
        arith,
        below_total v a h,
        (lt-div_ceil_iff (l.last_piece_id + 1) a l.piece_length v.piece_pos).0 lt,
      ))
  | no ge ↦ omega (arith, ids_bound v)
]

-- The range of pieces over its two ends.
meets_range :
    (o e d p : ℕ)
    → 0 < d
    → o ≤ e
    → ((o / d ≤ p) × (p < (if e == o then o / d else div_ceil e d)))
      ↔ ((o < e) × (p * d < e) × (o < (p + 1) * d))
meets_range o e d p hd h = elim (Bool-cases (e == o)) [
  | inl t ↦ rw t (λ r. omega arith, λ r. omega (arith, ==→eq e o t))
  | inr f ↦ rw f (
    λ r. (ground arith, (lt-div_ceil_iff p e d hd).0 r.1, (div-le_iff o p d hd).0 r.0),
    λ r. ((div-le_iff o p d hd).1 r.2, (lt-div_ceil_iff p e d hd).1 r.1),
  )
]

-- In a well-formed torrent and for `offset + len` below 2 ^ 64, a piece lies in the range of
-- `iter_pieces_within_offset` exactly if the bytes from `offset` on, `len` of them as far as the
-- torrent goes, are not empty and meet the bytes of the piece.
pub iter_pieces_within_offset_lem :
    {l : Lengths}
    → IsValid l
    → (offset len p : ℕ) → offset + len < u64_mod
    → let r = iter_pieces_within_offset l offset len in
      let end = min (offset + len) l.total_length in
      ((r.start ≤ p) × (p < r.end))
      ↔ ((offset < end) × (p * l.piece_length < end) × (offset < (p + 1) * l.piece_length))
unfolding iter_pieces_within_offset
iter_pieces_within_offset_lem {l} v offset len p h =
    let o = min offset l.total_length in
    let e = min (add_u64 o len) l.total_length in
    rw (div_fits v o (omega arith), div_ceil_fits v e (omega arith))
      (let m = meets_range o e l.piece_length p v.piece_pos (omega arith) in
        (
          λ r. let q = m.0 r in (omega arith, omega arith, omega arith),
          λ r. m.1 (omega arith, omega arith, omega arith),
        ))

-- What `compute_current_piece` finds at a byte of the torrent.
piece_at : Lengths → ℕ → CurrentPiece
unfolding piece_length
piece_at l a = record {
  id = a / l.piece_length;
  piece_remaining = piece_length l (a / l.piece_length) - a % l.piece_length;
  piece_offset = a / l.piece_length;
}

last_bound :
    {l : Lengths} → IsValid l → (a : ℕ) → a < l.total_length → a / l.piece_length ≤ l.last_piece_id
last_bound {l} v a h =
    (div-le_iff a l.last_piece_id l.piece_length v.piece_pos).1
      (omega (arith, below_total v (a + 1) (omega arith)))

-- A byte of the torrent lies before the end of its piece.
inside :
    {l : Lengths}
    → IsValid l
    → (a : ℕ) → a < l.total_length
    → a % l.piece_length < piece_length l (a / l.piece_length)
unfolding piece_length
inside {l} v a h =
    let d = div_parts a l.piece_length v.piece_pos in
    elim (Bool-cases (a / l.piece_length == l.last_piece_id)) [
      | inl t ↦ rw t (omega (arith, v.covers, ap (λ (k : ℕ). k * l.piece_length) (==→eq _ _ t)))
      | inr f ↦ rw f d.1
    ]

piece_length-le : {l : Lengths} → IsValid l → (i : ℕ) → piece_length l i ≤ l.piece_length
unfolding piece_length
piece_length-le {l} v i = ground arith

finds :
    {l : Lengths}
    → IsValid l
    → (pos base : ℕ) → base + pos < l.total_length
    → compute_current_piece l pos base ≡ some (piece_at l (base + pos))
unfolding compute_current_piece piece_at
finds {l} v pos base h =
    let a = base + pos in
    let q = a / l.piece_length in
    let abs_pos : add_u64 base pos ≡ a = omega arith in
    rw abs_pos (ground (arith, last_bound v a h, ids_bound v, inside v a h, piece_length-le v q))

remaining_at :
    {l : Lengths}
    → IsValid l
    → (a : ℕ) → a < l.total_length
    → (a + (piece_at l a).piece_remaining
        ≡ (piece_at l a).id * l.piece_length + piece_length l (piece_at l a).id)
      × (0 < (piece_at l a).piece_remaining)
unfolding piece_at
remaining_at {l} v a h = omega (arith, inside v a h, div_parts a l.piece_length v.piece_pos)

-- At a position inside a well-formed torrent, `compute_current_piece` finds the piece that holds
-- the position, and the remaining bytes that it gives are positive and lead from the position to
-- the end of the piece.
pub compute_current_piece_lem :
    {l : Lengths}
    → IsValid l
    → (pos base : ℕ) → base + pos < l.total_length
    → (c : CurrentPiece) × (compute_current_piece l pos base ≡ some c)
      × (c.id ≤ l.last_piece_id)
      × (c.id * l.piece_length ≤ base + pos)
      × (base + pos + c.piece_remaining ≡ c.id * l.piece_length + piece_length l c.id)
      × (0 < c.piece_remaining)
unfolding piece_at
compute_current_piece_lem {l} v pos base h = (
  piece_at l (base + pos),
  finds v pos base h,
  last_bound v (base + pos) h,
  omega (arith, div_parts (base + pos) l.piece_length v.piece_pos),
  (remaining_at v (base + pos) h).0,
  (remaining_at v (base + pos) h).1,
)

-- The `piece_offset` of a result of `compute_current_piece` is the number of the piece, whatever
-- the position in the piece.
pub piece_offset-compute_current_piece :
    (l : Lengths) (pos base : ℕ) {c : CurrentPiece}
    → compute_current_piece l pos base ≡ some c
    → c.piece_offset ≡ c.id
unfolding compute_current_piece
piece_offset-compute_current_piece l pos base h = ground arith

sum_range-piece_length_at :
    (l : Lengths) (i n : ℕ)
    → i + suc n ≡ l.last_piece_id + 1
    → sum_range (piece_length l) i (suc n) ≡ n * l.piece_length + l.last_piece_length
unfolding piece_length
sum_range-piece_length_at l i zero e =
    omega (arith, if_at i l.last_piece_id l.last_piece_length l.piece_length (omega arith))
sum_range-piece_length_at l i (suc n) e = omega (
  arith,
  if_below i l.last_piece_id l.last_piece_length l.piece_length (omega arith),
  sum_range-piece_length_at l (i + 1) n (omega arith),
)

-- The lengths of the pieces add up to the torrent's.
pub sum_range-piece_length :
    {l : Lengths} → IsValid l → sum_range (piece_length l) 0 (l.last_piece_id + 1) ≡ l.total_length
sum_range-piece_length {l} v =
    let count : l.last_piece_id + 1 ≡ suc l.last_piece_id = omega arith in
    rw count (sum_range-piece_length_at l 0 l.last_piece_id (omega arith) ∙ v.covers)
