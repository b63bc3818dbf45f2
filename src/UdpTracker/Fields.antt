-- ===== src/UdpTracker/Fields.antt =====
-- Numbers of fixed sizes, one behind the other.
use mathlib.Core.List.{append_assoc, append-nil}
use rust_torrent.Prelude.{
  ℕ, ◌+◌, ◌^◌, ◌≤◌, ◌<◌, ◌≡◌, refl, sym, ◌∙◌, ap, ◌⊎◌, inl, inr, false, Bool-cases, List, [], ◌∷◌,
  ◌++◌, length, length-append, ltb, arith,
}
use rust_torrent.Bytes.{
  to_be_bytes, from_be_bytes-to_be_bytes, length-to_be_bytes, front_at, back_at,
}
use rust_torrent.UdpTracker.{not_enough_space, extend_from_slice, extend_all, parse_num, Error}
use rust_torrent.Prelude.Results.{Result, ok, err, ◌>>=◌}

pub parse_num-front :
    (k v : ℕ) (rest : List ℕ) → v < 256 ^ k → parse_num k (to_be_bytes k v ++ rest) ≡ ok (v, rest)
unfolding parse_num
parse_num-front k v rest h =
    let l = length-to_be_bytes k v in
    let enough : ltb (length (to_be_bytes k v ++ rest)) k ≡ false =
      ground (arith, l, length-append (to_be_bytes k v) rest) in
    rw
      (
        parse_num,
        enough,
        front_at (to_be_bytes k v) rest l,
        back_at (to_be_bytes k v) rest l,
        from_be_bytes-to_be_bytes k v h,
      )
      refl

abbrev pub concat : List (List ℕ) → List ℕ
concat [] = []
concat (s ∷ ss) = s ++ concat ss

-- Either all of the slices have room, or the call that has none answers so.
pub extend_all-cases :
    (space : ℕ) (ss : List (List ℕ)) (w : List ℕ)
    → length w ≤ space
    → ((length w + length (concat ss) ≤ space) × (extend_all space ss w ≡ ok (w ++ concat ss)))
      ⊎ ((space < length w + length (concat ss)) × (extend_all space ss w ≡ err not_enough_space))
unfolding extend_all extend_from_slice
extend_all-cases space [] w h = inl (omega arith, ap ok (sym (append-nil w)))
extend_all-cases space (s ∷ ss) w h =
    let len = length-append s (concat ss) in
    let len' = length-append w s in
    elim (Bool-cases (ltb space (length w + length s))) [
      | inl full ↦ inr (ground (arith, full, len), rw (extend_all, extend_from_slice, full) refl)
      | inr room ↦ elim (extend_all-cases space ss (w ++ s) (ground (arith, room, len'))) [
        | inl (fits, eq) ↦ inl (
          omega (arith, fits, len, len'),
          rw (extend_all, extend_from_slice, room) (eq ∙ ap ok (append_assoc w s (concat ss))),
        )
        | inr (more, eq) ↦
            inr (omega (arith, more, len, len'), rw (extend_all, extend_from_slice, room) eq)
      ]
    ]

-- A field is its size and its number.
abbrev pub slices : List (ℕ × ℕ) → List (List ℕ)
slices [] = []
slices ((k, v) ∷ fs) = to_be_bytes k v ∷ slices fs

abbrev pub sizes : List (ℕ × ℕ) → List ℕ
sizes [] = []
sizes ((k, v) ∷ fs) = k ∷ sizes fs

abbrev pub numbers : List (ℕ × ℕ) → List ℕ
numbers [] = []
numbers ((k, v) ∷ fs) = v ∷ numbers fs

abbrev pub sum : List ℕ → ℕ
sum [] = 0
sum (n ∷ ns) = n + sum ns

abbrev pub AllFit : List (ℕ × ℕ) → Type 0
AllFit [] = Unit
AllFit ((k, v) ∷ fs) = (v < 256 ^ k) × AllFit fs

-- What a reader of fields with these sizes reads.
abbrev pub read_fields : List ℕ → List ℕ → Result Error (List ℕ)
read_fields [] buf = ok []
read_fields (k ∷ ks) buf =
    parse_num k buf >>= λ (v, rest). read_fields ks rest >>= λ vs. ok (v ∷ vs)

pub length-concat-slices : (fs : List (ℕ × ℕ)) → length (concat (slices fs)) ≡ sum (sizes fs)
length-concat-slices [] = refl
length-concat-slices ((k, v) ∷ fs) = omega (
  arith,
  length-append (to_be_bytes k v) (concat (slices fs)),
  length-to_be_bytes k v,
  length-concat-slices fs,
)

pub read_fields-concat-slices :
    (fs : List (ℕ × ℕ)) → AllFit fs → read_fields (sizes fs) (concat (slices fs)) ≡ ok (numbers fs)
read_fields-concat-slices [] h = refl
read_fields-concat-slices ((k, v) ∷ fs) h =
    rw (parse_num-front k v (concat (slices fs)) h.0, read_fields-concat-slices fs h.1) refl
