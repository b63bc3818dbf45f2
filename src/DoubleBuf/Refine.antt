-- ===== src/DoubleBuf/Refine.antt =====
-- The double buffer against a buffer that is one slice.
use rust_torrent.Prelude.{
  ℕ, ◌-◌, ◌≡◌, ◌⊎◌, inl, inr, Bool-cases, List, ◌++◌, length, take, drop, leb, if◌then◌else◌, arith,
}
use rust_torrent.DoubleBuf.{
  DoubleBuf, Read, done, missing, consume, consume_variable, advance, with_max_len, len,
}
use rust_torrent.DoubleBuf.Flat.{
  flat, consume-Reads, consume_variable-done, consume_variable-missing, flat-advance,
  flat-with_max_len, len-flat,
}

-- Reading `n` bytes of a list: them and the others, or how many are missing.
abbrev pub read_flat : ℕ → List ℕ → (List ℕ × List ℕ) ⊎ ℕ
read_flat n xs = if leb n (length xs) then inl (take n xs, drop n xs) else inr (n - length xs)

-- What a read shows of the two slices.
abbrev pub as_one : Read (List ℕ) → (List ℕ × List ℕ) ⊎ ℕ
as_one (done bytes b) = inl (bytes, flat b)
as_one (missing k) = inr k

abbrev pub as_one_joined : Read (List ℕ × List ℕ) → (List ℕ × List ℕ) ⊎ ℕ
as_one_joined (done parts b) = inl (parts.0 ++ parts.1, flat b)
as_one_joined (missing k) = inr k

consume_refines : (n : ℕ) (b : DoubleBuf) → as_one (consume n b) ≡ read_flat n (flat b)
consume_refines n b = elim (Bool-cases (leb n (length (flat b)))) [
  | inl enough ↦
      let (b', eq, left) = (consume-Reads n b).reads (ground arith) in rw (enough, eq, left)
  | inr short ↦ rw (short, (consume-Reads n b).lacks (ground arith))
]

consume_variable_refines :
    (n : ℕ) (b : DoubleBuf) → as_one_joined (consume_variable n b) ≡ read_flat n (flat b)
consume_variable_refines n b = elim (Bool-cases (leb n (length (flat b)))) [
  | inl enough ↦
      let (parts, b', eq, joined, left) = consume_variable-done n b (ground arith) in
      rw (enough, eq, joined, left)
  | inr short ↦ rw (short, consume_variable-missing n b (ground arith))
]

-- On the two slices joined to one list, `consume` and `consume_variable` are the reading of `n`
-- bytes from the front, or the number of bytes that are missing; `advance` drops `n` bytes,
-- `with_max_len` keeps the first `n`, and `len` is the length.
pub double_buf_refines :
    (n : ℕ) (b : DoubleBuf)
    → (as_one (consume n b) ≡ read_flat n (flat b))
      × (as_one_joined (consume_variable n b) ≡ read_flat n (flat b))
      × (flat (advance n b) ≡ drop n (flat b))
      × (flat (with_max_len n b) ≡ take n (flat b))
      × (len b ≡ length (flat b))
double_buf_refines n b = (
  consume_refines n b,
  consume_variable_refines n b,
  flat-advance n b,
  flat-with_max_len n b,
  len-flat b,
)
