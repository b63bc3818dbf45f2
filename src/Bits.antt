-- ===== src/Bits.antt =====
-- The bit arrays `BF`, `BS` and `BitV` (crates/librtbit/src/type_aliases.rs), which the crate
-- `bitvec` implements. They are a parameter: `Bits` lists the operations that the program calls, with
-- the documented behaviour that it relies on. An index or a range out of bounds is left to the
-- functions below, which say what the program sees then.
pub mod Example
use rust_torrent.Prelude.{
  ℕ, ◌+◌, ◌-◌, ◌*◌, ◌≤◌, ◌<◌, ◌≡◌, ◌↔◌, Bool, true, false, not, ◌&&◌, ◌||◌, Option, none, some,
  List, ltb, leb, ◌==◌, if◌then◌else◌, range_from, keep_if,
}
use rust_torrent.Outcome.{Outcome, ok, panicked}
use rust_torrent.Lengths.{Range}

pub record Bits (BF : Type 0) : Type 0 where
  pub len : BF → ℕ
  pub get : BF → ℕ → Bool
  -- `from_boxed_slice(vec![0u8; n].into_boxed_slice())`
  pub zeros : ℕ → BF
  pub set : BF → ℕ → Bool → BF
  -- `get_mut(start..end)` and then `fill(value)`, inside the bounds
  pub fill : BF → ℕ → ℕ → Bool → BF
  -- `get(start..end)` and then `all()`, inside the bounds
  pub all : BF → ℕ → ℕ → Bool
  -- `iter_ones().collect()`
  pub iter_ones : BF → List ℕ
  -- `!a & b`, `a | b` and `a & b`; the operators keep the length of the left side, and a right side
  -- that is shorter counts as filled up with zeros
  pub and_not : BF → BF → BF
  pub bit_or : BF → BF → BF
  pub bit_and : BF → BF → BF
  pub len-zeros : (n : ℕ) → len (zeros n) ≡ n * 8
  pub get-zeros : (n i : ℕ) → get (zeros n) i ≡ false
  pub len-set : (b : BF) (i : ℕ) (v : Bool) → len (set b i v) ≡ len b
  pub get-set :
      (b : BF) (i : ℕ) (v : Bool) (j : ℕ)
      → i < len b
      → get (set b i v) j ≡ (if j == i then v else get b j)
  pub len-fill : (b : BF) (s e : ℕ) (v : Bool) → len (fill b s e v) ≡ len b
  pub get-fill :
      (b : BF) (s e : ℕ) (v : Bool) (j : ℕ)
      → e ≤ len b
      → get (fill b s e v) j ≡ (if leb s j && ltb j e then v else get b j)
  pub all_iff : (b : BF) (s e : ℕ) → (all b s e ≡ true) ↔ ((j : ℕ) → s ≤ j → j < e → get b j ≡ true)
  pub iter_ones-eq : (b : BF) → iter_ones b ≡ keep_if (get b) (range_from 0 (len b))
  pub len-and_not : (a b : BF) → len a ≡ len b → len (and_not a b) ≡ len a
  pub get-and_not :
      (a b : BF) (i : ℕ)
      → len a ≡ len b
      → i < len a
      → get (and_not a b) i ≡ (not (get a i) && get b i)
  pub len-or : (a b : BF) → len a ≡ len b → len (bit_or a b) ≡ len a
  pub get-or :
      (a b : BF) (i : ℕ) → len a ≡ len b → i < len a → get (bit_or a b) i ≡ (get a i || get b i)
  pub len-and : (a b : BF) → len a ≡ len b → len (bit_and a b) ≡ len a
  pub get-and :
      (a b : BF) (i : ℕ) → len a ≡ len b → i < len a → get (bit_and a b) i ≡ (get a i && get b i)

module _ {BF : Type 0} ⦃bits : Bits BF⦄ where
  -- `b[i]`
  abbrev pub index_bit : BF → ℕ → Outcome Bool
  index_bit b i = if ltb i (bits.len b) then ok (bits.get b i) else panicked

  -- `b.get(i)`
  abbrev pub get_bit : BF → ℕ → Option Bool
  get_bit b i = if ltb i (bits.len b) then some (bits.get b i) else none

  -- `b.set(i, v)`
  abbrev pub set_bit : BF → ℕ → Bool → Outcome BF
  set_bit b i v = if ltb i (bits.len b) then ok (bits.set b i v) else panicked

  abbrev pub in_bounds : BF → Range → Bool
  in_bounds b r = leb r.start r.end && leb r.end (bits.len b)

  -- `b.get_mut(r)`, and `fill(v)` on what it finds
  abbrev pub fill_range : BF → Range → Bool → Option BF
  fill_range b r v = if in_bounds b r then some (bits.fill b r.start r.end v) else none

  -- `b.get(r)`, and `all()` on what it finds
  abbrev pub all_range : BF → Range → Option Bool
  all_range b r = if in_bounds b r then some (bits.all b r.start r.end) else none
