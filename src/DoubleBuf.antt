-- ===== src/DoubleBuf.antt =====
-- crates/librtbit-peer-protocol/src/double_buf.rs: a buffer that is split into two slices. A method
-- that advances the buffer returns it behind what it read.
pub mod Flat
pub mod Refine
pub mod Tests
use rust_torrent.Prelude.{
  ℕ, zero, ◌+◌, ◌-◌, min, Bool, true, false, ◌&&◌, Option, none, some, List, [], ◌∷◌, ◌++◌, length,
  take, drop, ltb, leb, ◌==◌, if◌then◌else◌,
}
use rust_torrent.Bytes.{from_be_bytes}

pub record DoubleBuf : Type 0 where
  pub buf_0 : List ℕ
  pub buf_1 : List ℕ

-- `Result<…, usize>`: what was read, or how many bytes are missing.
pub data Read {ℓ} (A : Type ℓ) : Type ℓ where
  done : A → DoubleBuf → Read A
  missing : ℕ → Read A

unfoldable pub consume_variable : ℕ → DoubleBuf → Read (List ℕ × List ℕ)
consume_variable len b =
    let available = length b.buf_0 + length b.buf_1 in
    let first_len = min (length b.buf_0) len in
    let second_len = min (len - first_len) (length b.buf_1) in
    if ltb available len
    then missing (len - available)
    else done (take first_len b.buf_0, take second_len b.buf_1)
        (record { buf_0 = drop first_len b.buf_0; buf_1 = drop second_len b.buf_1 })

-- The part of `consume` behind the two early returns.
unfoldable pub consume_across : ℕ → DoubleBuf → Read (List ℕ)
consume_across n b =
    let first = min (length b.buf_0) n in
    let second = min (length b.buf_1) (n - first) in
    let lacking = n - first - second in
    if ltb 0 lacking
    then missing lacking
    else done (take first b.buf_0 ++ take second b.buf_1)
        (record { buf_0 = drop first b.buf_0; buf_1 = drop second b.buf_1 })

unfoldable pub consume : ℕ → DoubleBuf → Read (List ℕ)
consume n b =
    if leb n (length b.buf_0)
    then done (take n b.buf_0) (record b { buf_0 = drop n b.buf_0 })
    else if length b.buf_0 == 0 && leb n (length b.buf_1)
    then done (take n b.buf_1) (record b { buf_1 = drop n b.buf_1 })
    else consume_across n b

unfoldable pub read_u32_be : DoubleBuf → Read ℕ
read_u32_be b = elim (consume 4 b) [
  | done bytes b' ↦ done (from_be_bytes bytes) b'
  | missing n ↦ missing n
]

unfoldable pub read_u8 : DoubleBuf → Option (ℕ × DoubleBuf)
read_u8 b = elim b.buf_0 [
  | v ∷ rest ↦ some (v, record b { buf_0 = rest })
  | [] ↦ elim b.buf_1 [ v ∷ rest ↦ some (v, record b { buf_1 = rest }) | [] ↦ none ]
]

unfoldable pub get_contiguous : ℕ → DoubleBuf → Option (List ℕ)
get_contiguous len b =
    if leb len (length b.buf_0)
    then some (take len b.buf_0)
    else if length b.buf_0 == 0 && leb len (length b.buf_1)
    then some (take len b.buf_1)
    else none

unfoldable pub len : DoubleBuf → ℕ
len b = length b.buf_0 + length b.buf_1

unfoldable pub is_empty : DoubleBuf → Bool
is_empty b = length b.buf_0 == 0 && length b.buf_1 == 0

unfoldable pub advance : ℕ → DoubleBuf → DoubleBuf
advance offset b =
    let buf_0_adv = min (length b.buf_0) offset in
    let buf_1_adv = min (offset - buf_0_adv) (length b.buf_1) in
    record { buf_0 = drop buf_0_adv b.buf_0; buf_1 = drop buf_1_adv b.buf_1 }

unfoldable pub with_max_len : ℕ → DoubleBuf → DoubleBuf
with_max_len max_len b =
    let buf_0_len = min (length b.buf_0) max_len in
    let buf_1_len = min (max_len - buf_0_len) (length b.buf_1) in
    record { buf_0 = take buf_0_len b.buf_0; buf_1 = take buf_1_len b.buf_1 }
