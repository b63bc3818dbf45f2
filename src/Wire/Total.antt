-- ===== src/Wire/Total.antt =====
-- `deserialize` on any bytes: whole messages, and the beginnings of messages.
use rust_torrent.Prelude.{
  length-drop, ℕ, zero, suc, ◌+◌, ◌-◌, ◌≤◌, ◌<◌, ◌≡◌, ◌≢◌, refl, ◌∙◌, ap, Bool, true, false, Option,
  none, some, List, [], ◌∷◌, ◌++◌, length, take, drop, ltb, ◌==◌, if◌then◌else◌, add_u32, u32_mod,
  arith,
}
use mathlib.Core.List.{append_assoc}
use rust_torrent.Bytes.{to_be_bytes, from_be_bytes, length-to_be_bytes, front_at}
use rust_torrent.DoubleBuf.{
  DoubleBuf, Read, done, missing, consume, read_u32_be, read_u8, get_contiguous, len, with_max_len,
}
use rust_torrent.DoubleBuf.Flat.{
  flat, consume-Reads, consume_variable-done, read_u8-some, read_u8-none, len-flat, reads_front,
}
use rust_torrent.Wire.{
  MessageDeserializeError, not_enough_data, need_contiguous, Result, ok, err, panicked, ◌>>=◌,
  Request, Piece, Message, choke, unchoke, interested, not_interested, have_all, have_none, have,
  suggest_piece, allowed_fast, port, request, cancel, reject_request, keep_alive, bitfield,
  Extension, write_preamble,
}
use rust_torrent.Wire.Deserialize.{
  unwrap, check_msg_len, read_request, read_piece, read_plain, read_word, read_three_words,
  deserialize_payload, deserialize,
}
use rust_torrent.Wire.Fronts.{read_u32_front, read_piece-eq}

abbrev IsCalm {ℓ} : {A : Type ℓ} → Result MessageDeserializeError A → Type ℓ
IsCalm r = r ≢ panicked

if-IsCalm {ℓ} :
    {A : Type ℓ} (b : Bool) {x y : Result MessageDeserializeError A}
    → (b ≡ true → IsCalm x)
    → (b ≡ false → IsCalm y)
    → IsCalm (if b then x else y)
if-IsCalm true x y = x refl
if-IsCalm false x y = y refl

read_u32-done :
    (buf : DoubleBuf)
    → 4 ≤ length (flat buf)
    → (v : ℕ) × (buf' : DoubleBuf) × (read_u32_be buf ≡ done v buf')
      × (flat buf' ≡ drop 4 (flat buf))
unfolding read_u32_be
read_u32-done buf h =
    let (buf', eq, left) = (consume-Reads 4 buf).reads h in
    (from_be_bytes (take 4 (flat buf)), buf', rw (read_u32_be, eq), left)

module _ {Ext : Type 0} where
  read_plain-IsCalm : (m : Message Ext) (id n total : ℕ) → IsCalm (read_plain m id n total)
  unfolding read_plain
  read_plain-IsCalm m id n total = if-IsCalm (n == 0) (λ t e. cc) (λ f e. cc)

  read_word-IsCalm :
      (f : ℕ → Message Ext) (id n total : ℕ) (buf : DoubleBuf)
      → n ≤ length (flat buf)
      → IsCalm (read_word f id n total buf)
  unfolding read_word
  read_word-IsCalm f id n total buf h =
      if-IsCalm (n == 4)
        (λ t e. let (v, buf', eq, left) = read_u32-done buf (ground arith) in cc (rw eq at e))
        (λ x e. cc)

  read_three_words-IsCalm :
      (f : Request → Message Ext) (id n total : ℕ) (buf : DoubleBuf)
      → n ≤ length (flat buf)
      → IsCalm (read_three_words f id n total buf)
  unfolding read_three_words read_request
  read_three_words-IsCalm f id n total buf h =
      if-IsCalm (n == 12)
        (λ t e.
          let (buf', eq, left) = (consume-Reads 12 buf).reads (ground arith) in
          cc (rw (read_request, eq) at e))
        (λ x e. cc)

  read_two-IsCalm :
      (id n total : ℕ) (buf : DoubleBuf)
      → n ≤ length (flat buf)
      → IsCalm {A = Message Ext × ℕ} (
          check_msg_len n 2 id
            (unwrap (consume 2 buf) >>= λ (bytes, buf'). ok (port (from_be_bytes bytes), total)))
  read_two-IsCalm id n total buf h =
      if-IsCalm (n == 2)
        (λ t e.
          let (buf', eq, left) = (consume-Reads 2 buf).reads (ground arith) in cc (rw eq at e))
        (λ x e. cc)

read_piece-IsCalm :
    (n : ℕ) (buf : DoubleBuf)
    → 9 ≤ n
    → n ≤ length (flat buf)
    → (p : Piece) × (read_piece n buf ≡ ok p)
read_piece-IsCalm n buf lo h =
    let (index, buf₁, eq₁, left₁) = read_u32-done buf (omega arith) in
    let l₁ = ap length left₁ ∙ length-drop 4 (flat buf) in
    let (begin, buf₂, eq₂, left₂) = read_u32-done buf₁ (omega arith) in
    let l₂ = ap length left₂ ∙ length-drop 4 (flat buf₁) in
    let (parts, buf₃, eq₃, joined, rest) = consume_variable-done (n - 8) buf₂ (omega arith) in
    (_, read_piece-eq n buf eq₁ eq₂ eq₃)

bind-IsCalm {ℓ κ} :
    {A : Type ℓ} {B : Type κ} (r : Result MessageDeserializeError A)
    (f : A → Result MessageDeserializeError B)
    → IsCalm r
    → ((a : A) → IsCalm (f a))
    → IsCalm (r >>= f)
bind-IsCalm (ok a) f c d = d a
bind-IsCalm (err e) f c d = λ p. cc
bind-IsCalm panicked f c d = λ p. c refl

module _ {Ext : Type 0} (extension : Extension Ext)
    (calm : (b : DoubleBuf) → extension.deserialize_extended b ≢ panicked) where
  payload-IsCalm :
      (id n total : ℕ) (buf : DoubleBuf)
      → n ≤ length (flat buf)
      → IsCalm (deserialize_payload extension id n total buf)
  unfolding deserialize_payload
  payload-IsCalm id n total buf h =
      if-IsCalm (id == 0) (λ t. read_plain-IsCalm choke id n total)
        (λ f₀.
          if-IsCalm (id == 1) (λ t. read_plain-IsCalm unchoke id n total)
            (λ f₁.
              if-IsCalm (id == 2) (λ t. read_plain-IsCalm interested id n total)
                (λ f₂.
                  if-IsCalm (id == 3) (λ t. read_plain-IsCalm not_interested id n total)
                    (λ f₃.
                      if-IsCalm (id == 4) (λ t. read_word-IsCalm have id n total buf h)
                        (λ f₄.
                          if-IsCalm (id == 9) (λ t. read_two-IsCalm id n total buf h)
                            (λ f₅.
                              if-IsCalm (id == 13)
                                (λ t. read_word-IsCalm suggest_piece id n total buf h)
                                (λ f₆.
                                  if-IsCalm (id == 17)
                                    (λ t. read_word-IsCalm allowed_fast id n total buf h)
                                    (λ f₇.
                                      if-IsCalm (id == 14)
                                        (λ t. read_plain-IsCalm have_all id n total)
                                        (λ f₈.
                                          if-IsCalm (id == 15)
                                            (λ t. read_plain-IsCalm have_none id n total)
                                            (λ f₉.
                                              if-IsCalm (id == 5)
                                                (λ t.
                                                  if-IsCalm (ltb n 1) (λ s e. cc)
                                                    (λ s. contiguous (get_contiguous n buf)))
                                                (λ g₀.
                                                  if-IsCalm (id == 6)
                                                    (λ t.
                                                      read_three_words-IsCalm request id n total buf
                                                        h)
                                                    (λ g₁.
                                                      if-IsCalm (id == 8)
                                                        (λ t.
                                                          read_three_words-IsCalm cancel id n total
                                                            buf h)
                                                        (λ g₂.
                                                          if-IsCalm (id == 16)
                                                            (λ t.
                                                            read_three_words-IsCalm reject_request
                                                            id n total buf h)
                                                            (λ g₃.
                                                            if-IsCalm (id == 7)
                                                            (λ t.
                                                            if-IsCalm (ltb n 9) (λ s e. cc)
                                                            (λ s e.
                                                            let (p, eq) =
                                                            read_piece-IsCalm n buf (ground arith)
                                                            h in
                                                            cc (rw eq at e)))
                                                            (λ g₄.
                                                            if-IsCalm (id == 20)
                                                            (λ t.
                                                            bind-IsCalm _ _
                                                            (calm (with_max_len n buf)) (λ x e. cc))
                                                            (λ g₅ e. cc))))))))))))))))
    where
      contiguous :
          (o : Option (List ℕ))
          → IsCalm {A = Message Ext × ℕ}
              (elim o [ none ↦ err need_contiguous | some bytes ↦ ok (bitfield bytes, total) ])
      contiguous none = λ e. cc
      contiguous (some bytes) = λ e. cc

  -- If reading an extended message does not panic, `deserialize` does not panic on any buffer.
  pub deserialize-calm : (buf : DoubleBuf) → deserialize extension buf ≢ panicked
  unfolding deserialize
  deserialize-calm buf = by_prefix (read_u32_be buf)
    where
      by_id :
          (n total : ℕ) (o : Option (ℕ × DoubleBuf))
          → IsCalm {A = Message Ext × ℕ} (elim o [
            | none ↦ err (not_enough_data n none)
            | some (msg_id, buf₂) ↦
                if ltb (len buf₂) (n - 1)
                then err (not_enough_data (n - 1 - len buf₂) (some msg_id))
                else deserialize_payload extension msg_id (n - 1) total buf₂
          ])
      by_id n total none = λ e. cc
      by_id n total (some (msg_id, buf₂)) =
          if-IsCalm (ltb (len buf₂) (n - 1)) (λ t e. cc)
            (λ f. payload-IsCalm msg_id (n - 1) total buf₂ (ground (arith, len-flat buf₂)))

      by_prefix :
          (r : Read ℕ)
          → IsCalm {A = Message Ext × ℕ} (elim r [
            | missing n ↦ err (not_enough_data n none)
            | done len_prefix buf₁ ↦
                if len_prefix == 0 then ok (keep_alive, len_prefix + 4) else elim (read_u8 buf₁) [
                  | none ↦ err (not_enough_data len_prefix none)
                  | some (msg_id, buf₂) ↦
                      if ltb (len buf₂) (len_prefix - 1)
                      then err (not_enough_data (len_prefix - 1 - len buf₂) (some msg_id))
                      else deserialize_payload extension msg_id
                          (len_prefix - 1)
                          (len_prefix + 4)
                          buf₂
                ]
          ])
      by_prefix (missing n) = λ e. cc
      by_prefix (done n buf₁) = if-IsCalm (n == 0) (λ t e. cc) (λ f. by_id n (n + 4) (read_u8 buf₁))

module _ {Ext : Type 0} (extension : Extension Ext) where
  -- The id is there or not, and the payload is not complete.
  lacking :
      (n : ℕ) (zs : List ℕ) (buf buf₁ : DoubleBuf)
      → read_u32_be buf ≡ done (n + 1) buf₁
      → flat buf₁ ≡ zs
      → length zs < n + 1
      → (o : Option ℕ) × (deserialize extension buf ≡ err (not_enough_data (n + 1 - length zs) o))
  unfolding deserialize
  lacking n [] buf buf₁ eq e h =
      let more : (n + 1 == 0) ≡ false = ground arith in
      let all : n + 1 - 0 ≡ n + 1 = omega arith in
      (none, rw (deserialize, eq, more, read_u8-none buf₁ e, all))
  lacking n (z ∷ zs) buf buf₁ eq e h =
      let (buf₂, eq₂, left₂) = read_u8-some buf₁ e in
      let more : (n + 1 == 0) ≡ false = ground arith in
      let size : len buf₂ ≡ length zs = len-flat buf₂ ∙ ap length left₂ in
      let short : ltb (length zs) (n + 1 - 1) ≡ true = ground arith in
      let count : n + 1 - 1 - length zs ≡ n + 1 - suc (length zs) = omega arith in
      (some z, rw (deserialize, eq, more, eq₂, size, short, count))

  -- Of a message of `n` payload bytes with any id, whose length prefix fits 32 bits, a proper
  -- beginning of at least four bytes, in any two slices, makes `deserialize` answer `NotEnoughData`
  -- with exactly the number of bytes that are missing.
  pub deserialize-take :
      (n id : ℕ) (payload : List ℕ)
      → length payload ≡ n
      → n + 1 < u32_mod
      → (xs ys : List ℕ) → xs ++ ys ≡ write_preamble n id ++ payload
      → 4 ≤ length xs
      → length xs < n + 5
      → (buf : DoubleBuf) → flat buf ≡ xs
      → (o : Option ℕ) × (deserialize extension buf ≡ err (not_enough_data (n + 5 - length xs) o))
  unfolding write_preamble
  deserialize-take n id payload l h xs ys whole lo hi buf e =
      let prefix : add_u32 n 1 ≡ n + 1 = omega arith in
      let word = to_be_bytes 4 (n + 1) in
      let (front, back) = reads_front 4 (record { buf_0 = xs; buf_1 = ys }) lo in
      let bytes : xs ++ ys ≡ word ++ (id ∷ payload) =
        whole ∙ rw (prefix, append_assoc word (id ∷ []) payload) in
      let head : take 4 xs ≡ word =
        front ∙ ap (take 4) bytes ∙ front_at word (id ∷ payload) (length-to_be_bytes 4 (n + 1)) in
      let (buf₁, eq, left) = read_u32_front (n + 1) (drop 4 xs) buf h (e ∙ split_front 4 xs head) in
      let size = length-drop 4 xs in
      let (o, r) = lacking n (drop 4 xs) buf buf₁ eq left (omega arith) in
      (o, r ∙ ap (λ (j : ℕ). err (not_enough_data j o)) (omega arith))
    where
      split_front : (k : ℕ) (xs : List ℕ) {ws : List ℕ} → take k xs ≡ ws → xs ≡ ws ++ drop k xs
      split_front zero xs t = cc
      split_front (suc k) [] t = cc
      split_front (suc k) (x ∷ xs) t =
          ap (λ (ws : List ℕ). x ∷ ws) (split_front k xs refl)
          ∙ ap (λ (ws : List ℕ). ws ++ drop k xs) t
