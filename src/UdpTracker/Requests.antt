-- ===== src/UdpTracker/Requests.antt =====
-- What is written for a request, and when there is no room for it.
use rust_torrent.Prelude.{
  ℕ, ◌+◌, ◌*◌, ◌-◌, ◌^◌, ◌≤◌, ◌<◌, ◌≡◌, refl, ◌∙◌, ap, ◌⊎◌, inl, inr, Bool, true, false, ◌&&◌, ◌||◌,
  Bool-cases, List, [], ◌∷◌, length, map, ltb, ◌==◌, arith,
}
use rust_torrent.Bytes.{to_be_bytes}
use rust_torrent.UdpTracker.{
  Request, connect, announce, scrape, number_of_hashes, not_enough_space, connection_id_magic,
  extend_all, serialize, write_buf_len, Error,
}
use rust_torrent.Prelude.Results.{Result, ok, err}
use rust_torrent.UdpTracker.Fields.{
  concat, extend_all-cases, slices, sizes, numbers, sum, AllFit, read_fields, length-concat-slices,
  read_fields-concat-slices,
}

abbrev hash_fields : List ℕ → List (ℕ × ℕ)
hash_fields [] = []
hash_fields (h ∷ hs) = (20, h) ∷ hash_fields hs

-- The fields of a request, in the order of the protocol: the size and the number.
abbrev pub layout : Request → ℕ → List (ℕ × ℕ)
layout connect tid = (8, connection_id_magic) ∷ (4, 0) ∷ (4, tid) ∷ []
layout (announce id f) tid =
    (8, id)
    ∷ (4, 1)
    ∷ (4, tid)
    ∷ (20, f.info_hash)
    ∷ (20, f.peer_id)
    ∷ (8, f.downloaded)
    ∷ (8, f.left)
    ∷ (8, f.uploaded)
    ∷ (4, f.event)
    ∷ (4, 0)
    ∷ (4, f.key)
    ∷ (4, 2 ^ 32 - 1)
    ∷ (2, f.port)
    ∷ []
layout (scrape id hs) tid = (8, id) ∷ (4, 2) ∷ (4, tid) ∷ hash_fields hs

abbrev pub request_len : Request → ℕ
request_len connect = 16
request_len (announce id f) = 98
request_len (scrape id hs) = 16 + 20 * length hs

abbrev pub is_allowed : Request → Bool
is_allowed connect = true
is_allowed (announce id f) = true
is_allowed (scrape id hs) = ltb 0 (length hs) && ltb (length hs) 75

slices-hash_fields : (hs : List ℕ) → slices (hash_fields hs) ≡ map (to_be_bytes 20) hs
slices-hash_fields [] = refl
slices-hash_fields (h ∷ hs) =
    ap (λ (t : List (List ℕ)). to_be_bytes 20 h ∷ t) (slices-hash_fields hs)

sum-hash_fields : (hs : List ℕ) → sum (sizes (hash_fields hs)) ≡ 20 * length hs
sum-hash_fields [] = refl
sum-hash_fields (h ∷ hs) = omega (arith, sum-hash_fields hs)

sum-layout : (r : Request) (tid : ℕ) → sum (sizes (layout r tid)) ≡ request_len r
sum-layout connect tid = refl
sum-layout (announce id f) tid = refl
sum-layout (scrape id hs) tid = omega (arith, sum-hash_fields hs)

-- The calls of a request that is allowed are those for its fields.
serialize-layout :
    (r : Request) (tid space : ℕ)
    → ((is_allowed r ≡ true)
        × (serialize r tid space ≡ extend_all space (slices (layout r tid)) []))
      ⊎ ((is_allowed r ≡ false) × (serialize r tid space ≡ err number_of_hashes))
unfolding serialize
serialize-layout connect tid space = inl (refl, refl)
serialize-layout (announce id f) tid space = inl (refl, refl)
serialize-layout (scrape id hs) tid space =
    elim (Bool-cases (length hs == 0 || ltb 74 (length hs))) [
      | inl bad ↦ inr (ground (arith, bad), rw (serialize, bad) refl)
      | inr good ↦ inl (ground (arith, good), rw (serialize, good, slices-hash_fields hs) refl)
    ]

-- What comes of a request in a buffer.
abbrev pub Written : Request → ℕ → ℕ → Result Error (List ℕ) → Type 0
Written r tid space result =
    (bytes : List ℕ) × (result ≡ ok bytes)
    × (length bytes ≡ request_len r)
    × (request_len r ≤ space)
    × (read_fields (sizes (layout r tid)) bytes ≡ ok (numbers (layout r tid)))

-- For a request whose numbers fit their fields, `serialize` answers with bytes from which the
-- fields of the protocol are read back in order and that are 16, 98, or 16 and 20 for each info
-- hash, if the buffer has room for them. It fails for want of room exactly if they are more than
-- the buffer, and otherwise only for a scrape of none or of more than 74 info hashes.
pub serialize_lem :
    (r : Request) (tid space : ℕ)
    → AllFit (layout r tid)
    → ((is_allowed r ≡ true) × Written r tid space (serialize r tid space))
      ⊎ ((is_allowed r ≡ true)
          × (space < request_len r)
          × (serialize r tid space ≡ err not_enough_space))
      ⊎ ((is_allowed r ≡ false) × (serialize r tid space ≡ err number_of_hashes))
serialize_lem r tid space h =
    let fs = layout r tid in
    let len = length-concat-slices fs ∙ sum-layout r tid in
    elim (serialize-layout r tid space) [
      | inr refused ↦ inr (inr refused)
      | inl (allowed, eq) ↦ elim (extend_all-cases space (slices fs) [] (omega arith)) [
        | inl (fits, all) ↦ inl (
          allowed,
          (
            concat (slices fs),
            eq ∙ all,
            len,
            omega (arith, fits, len),
            read_fields-concat-slices fs h,
          ),
        )
        | inr (more, full) ↦ inr (inl (allowed, omega (arith, more, len), eq ∙ full))
      ]
    ]

-- In a buffer of 1024 bytes there is no room for a scrape of 51 to 74 info hashes.
pub serialize-write_buf_len :
    (id tid : ℕ) (hs : List ℕ)
    → 50 < length hs
    → length hs ≤ 74
    → serialize (scrape id hs) tid write_buf_len ≡ err not_enough_space
serialize-write_buf_len id tid hs more few =
    let len = length-concat-slices (layout (scrape id hs) tid) ∙ sum-layout (scrape id hs) tid in
    elim (serialize-layout (scrape id hs) tid write_buf_len) [
      | inr (refused, eq) ↦ absurd (ground (arith, refused, more, few))
      | inl (allowed, eq) ↦
          elim (extend_all-cases write_buf_len (slices (layout (scrape id hs) tid)) []
            (omega arith)) [
              | inl (fits, all) ↦ absurd (omega (arith, fits, len, more))
              | inr (longer, full) ↦ eq ∙ full
            ]
    ]
