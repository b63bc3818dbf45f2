-- ===== src/ChunkTracker/Bytes.antt =====
-- `calc_hns` in closed form: bytes counted over the pieces that satisfy a test.
use rust_torrent.Prelude.{
  ℕ, zero, suc, ◌+◌, ◌≤◌, ◌<◌, ◌≡◌, ◌≢◌, Bool, true, false, not, ◌&&◌, map, if◌then◌else◌, ◌==◌,
  u64_mod, add_u64, range_from, arith, lt→ltb, ap, ◌∙◌,
}
use rust_torrent.Prelude.Sums.{sum_range, sum_range_mono, sum_range-congr, sum_range-bump}
use rust_torrent.Outcome.{ok}
use rust_torrent.Lengths.{Lengths, iter_piece_infos, piece_length}
use rust_torrent.Lengths.Valid
use rust_torrent.Lengths.Pieces.{total_pieces-eq, sum_range-piece_length}
use rust_torrent.Bits.{Bits}
use rust_torrent.ChunkTracker.{HaveNeededSelected, hns_loop, calc_hns, counted}

-- The length of a piece if it is counted.
abbrev pub bytes_if : Lengths → (ℕ → Bool) → ℕ → ℕ
bytes_if l f i = if f i then piece_length l i else 0

abbrev pub bytes_where : Lengths → (ℕ → Bool) → ℕ
bytes_where l f = sum_range (bytes_if l f) 0 (l.last_piece_id + 1)

pub bytes_if-le : (l : Lengths) (f : ℕ → Bool) (i : ℕ) → bytes_if l f i ≤ piece_length l i
bytes_if-le l f i = ground arith

pub bytes_where-le :
    {l : Lengths} → Valid.IsValid l → (f : ℕ → Bool) → bytes_where l f ≤ l.total_length
bytes_where-le {l} v f = omega (
  arith,
  sum_range-piece_length v,
  sum_range_mono (bytes_if l f) (piece_length l) 0 (l.last_piece_id + 1) (bytes_if-le l f),
)

pub bytes_where-congr :
    (l : Lengths) (f g : ℕ → Bool)
    → ((k : ℕ) → k ≤ l.last_piece_id → f k ≡ g k)
    → bytes_where l f ≡ bytes_where l g
bytes_where-congr l f g h =
    sum_range-congr (bytes_if l f) (bytes_if l g) 0 (l.last_piece_id + 1)
      (λ k lo hi. rw (h k (omega arith)))

-- One piece more.
pub bytes_where-bump :
    (l : Lengths) (f g : ℕ → Bool) (i : ℕ)
    → i ≤ l.last_piece_id
    → f i ≡ false
    → g i ≡ true
    → ((k : ℕ) → k ≢ i → g k ≡ f k)
    → bytes_where l g ≡ bytes_where l f + piece_length l i
bytes_where-bump l f g i le off on h =
    sum_range-bump (bytes_if l f) (bytes_if l g) (piece_length l i) i 0 (l.last_piece_id + 1)
      (omega arith) (omega arith) (rw (off, on) (omega arith)) (λ k ne. rw (h k ne))

-- The bytes there, needed and selected, from the two sets of pieces.
abbrev pub hns_of : Lengths → (ℕ → Bool) → (ℕ → Bool) → HaveNeededSelected
hns_of l have selected = record {
  have_bytes = bytes_where l have;
  needed_bytes = bytes_where l (λ i. selected i && not (have i));
  selected_bytes = bytes_where l selected;
}

counted-eq :
    (x len : ℕ) (b : Bool)
    → x + len < u64_mod
    → add_u64 x (counted len b) ≡ x + (if b then len else 0)
counted-eq x len true h = omega arith
counted-eq x len false h = omega arith

module _ {BF : Type 0} ⦃bits : Bits BF⦄ (l : Lengths) (have selected : BF) where
  -- The counts with those of the pieces from `i` on.
  plus : HaveNeededSelected → ℕ → ℕ → HaveNeededSelected
  plus a i n = record {
    have_bytes = a.have_bytes + sum_range (bytes_if l (bits.get have)) i n;
    needed_bytes =
        a.needed_bytes
        + sum_range (bytes_if l (λ k. bits.get selected k && not (bits.get have k))) i n;
    selected_bytes = a.selected_bytes + sum_range (bytes_if l (bits.get selected)) i n;
  }

  hns_loop-eq :
      (i n : ℕ) (a : HaveNeededSelected)
      → i + n ≤ bits.len have
      → i + n ≤ bits.len selected
      → a.have_bytes + sum_range (piece_length l) i n < u64_mod
      → a.needed_bytes + sum_range (piece_length l) i n < u64_mod
      → a.selected_bytes + sum_range (piece_length l) i n < u64_mod
      → hns_loop have selected
          (map
            (λ idx. record {
              piece_index = idx;
              len = if idx == l.last_piece_id then l.last_piece_length else l.piece_length;
            })
            (range_from i n))
          a
        ≡ ok (plus a i n)
  unfolding hns_loop plus piece_length
  hns_loop-eq i zero a h s b₁ b₂ b₃ = ground arith
  hns_loop-eq i (suc n) a h s b₁ b₂ b₃ =
      let len = piece_length l i in
      let is_have = bits.get have i in
      let is_selected = bits.get selected i in
      rw
        (
          lt→ltb i (bits.len have) (omega arith),
          lt→ltb i (bits.len selected) (omega arith),
          counted-eq a.have_bytes len is_have (omega arith),
          counted-eq a.needed_bytes len (is_selected && not is_have) (omega arith),
          counted-eq a.selected_bytes len is_selected (omega arith),
        )
        (hns_loop-eq (i + 1) n
            (record {
              have_bytes = a.have_bytes + bytes_if l (bits.get have) i;
              needed_bytes =
                  a.needed_bytes + bytes_if l (λ k. bits.get selected k && not (bits.get have k)) i;
              selected_bytes = a.selected_bytes + bytes_if l (bits.get selected) i;
            })
            (omega arith) (omega arith) (omega (arith, bytes_if-le l (bits.get have) i))
            (omega (arith, bytes_if-le l (λ k. bits.get selected k && not (bits.get have k)) i))
            (omega (arith, bytes_if-le l (bits.get selected) i))
          ∙ ap ok (ground arith))

  -- For a well-formed torrent and two bit arrays that have a bit for each piece, `calc_hns` returns
  -- the sums of the lengths of the pieces that are there, that are selected and not there, and that
  -- are selected.
  pub calc_hns-eq :
      Valid.IsValid l
      → l.last_piece_id < bits.len have
      → l.last_piece_id < bits.len selected
      → calc_hns l have selected ≡ ok (hns_of l (bits.get have) (bits.get selected))
  unfolding calc_hns plus iter_piece_infos
  calc_hns-eq v h s =
      let total = sum_range-piece_length v in
      rw (total_pieces-eq v) (
        hns_loop-eq 0 (l.last_piece_id + 1)
          (record { have_bytes = 0; needed_bytes = 0; selected_bytes = 0 }) (omega arith)
          (omega arith) (omega (arith, v.total_bound)) (omega (arith, v.total_bound))
          (omega (arith, v.total_bound))
        ∙ ap ok (ground arith))
