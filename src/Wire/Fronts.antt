-- ===== src/Wire/Fronts.antt =====
-- What stands at the front of a buffer is what is read from it.
use rust_torrent.Prelude.{
  ℕ, ◌-◌, ◌<◌, ◌≡◌, sym, ◌∙◌, ap, inl, inr, Bool-cases, List, ◌++◌, length, length-append, take,
  drop, ltb, u32_mod, arith,
}
use mathlib.Core.List.{append_assoc}
use rust_torrent.Bytes.{
  take_front, drop_front, front_at, back_at, to_be_bytes, from_be_bytes-to_be_bytes,
  length-to_be_bytes,
}
use rust_torrent.DoubleBuf.{DoubleBuf, done, consume, consume_variable, read_u32_be}
use rust_torrent.DoubleBuf.Flat.{flat, consume-Reads, take-all}
use rust_torrent.Wire.{ok, Request, serialize_request, write_preamble, write_message}
use rust_torrent.Wire.Deserialize.{read_piece}

pub whole_at : {n : ℕ} (xs : List ℕ) → length xs ≡ n → take n xs ≡ xs
whole_at xs l = rw l at (take-all xs)

-- The three words of a request.
pub request_parts :
    (r : Request)
    → (length (serialize_request r) ≡ 12)
      × (take 4 (serialize_request r) ≡ to_be_bytes 4 r.index)
      × (take 4 (drop 4 (serialize_request r)) ≡ to_be_bytes 4 r.begin)
      × (take 4 (drop 8 (serialize_request r)) ≡ to_be_bytes 4 r.length_of)
unfolding serialize_request
request_parts r =
    let a = to_be_bytes 4 r.index in
    let b = to_be_bytes 4 r.begin in
    let c = to_be_bytes 4 r.length_of in
    let la = length-to_be_bytes 4 r.index in
    let lb = length-to_be_bytes 4 r.begin in
    let lc = length-to_be_bytes 4 r.length_of in
    let lab : length (a ++ b) ≡ 8 = omega (arith, length-append a b) in
    (
      omega (arith, length-append a (b ++ c), length-append b c),
      front_at a (b ++ c) la,
      ap (take 4) (back_at a (b ++ c) la) ∙ front_at b c lb,
      ap (λ (t : List ℕ). take 4 (drop 8 t)) (sym (append_assoc a b c))
          ∙ ap (take 4) (back_at (a ++ b) c lab)
          ∙ whole_at c lc,
    )

-- What stands at the front of a buffer is what is read.
pub consume_front :
    (n : ℕ) (xs rest : List ℕ) (buf : DoubleBuf)
    → length xs ≡ n
    → flat buf ≡ xs ++ rest
    → (buf' : DoubleBuf) × (consume n buf ≡ done xs buf') × (flat buf' ≡ rest)
consume_front n xs rest buf l e =
    let total = ap length e ∙ length-append xs rest in
    let (buf', eq, left) = (consume-Reads n buf).reads (omega arith) in
    let front = rw l at (take_front xs rest) in
    let back = rw l at (drop_front xs rest) in
    (
      buf',
      eq ∙ ap (λ (t : List ℕ). done t buf') (ap (take n) e ∙ front),
      left ∙ ap (drop n) e ∙ back,
    )

pub read_u32_front :
    (v : ℕ) (rest : List ℕ) (buf : DoubleBuf)
    → v < u32_mod
    → flat buf ≡ to_be_bytes 4 v ++ rest
    → (buf' : DoubleBuf) × (read_u32_be buf ≡ done v buf') × (flat buf' ≡ rest)
unfolding read_u32_be
read_u32_front v rest buf h e =
    let (buf', eq, left) = consume_front 4 (to_be_bytes 4 v) rest buf (length-to_be_bytes 4 v) e in
    (buf', rw (read_u32_be, eq, from_be_bytes-to_be_bytes 4 v h), left)

pub write_message-ok :
    (space total n id : ℕ) (payload : List ℕ) {k : ℕ} {bytes : List ℕ}
    → write_message space total n id payload ≡ ok (k, bytes)
    → (total ≡ k) × (write_preamble n id ++ payload ≡ bytes)
unfolding write_message
write_message-ok space total n id payload e = elim (Bool-cases (ltb space total)) [
  | inl full ↦ cc (rw (write_message, full) at e)
  | inr fits ↦ let e' = rw (write_message, fits) at e in (cc e', cc e')
]

pub read_piece-eq :
    (n : ℕ) (buf : DoubleBuf) {index begin : ℕ} {buf₁ buf₂ buf₃ : DoubleBuf}
    {parts : List ℕ × List ℕ}
    → read_u32_be buf ≡ done index buf₁
    → read_u32_be buf₁ ≡ done begin buf₂
    → consume_variable (n - 8) buf₂ ≡ done parts buf₃
    → read_piece n buf
      ≡ ok (record { index = index; begin = begin; block_0 = parts.0; block_1 = parts.1 })
unfolding read_piece
read_piece-eq n buf a b c = rw (read_piece, a, b, c)
