-- ===== src/Bytes.antt =====
-- Big-endian numbers: `to_be_bytes` and `from_be_bytes` of Rust's standard library, on lists of bytes.
use rust_torrent.Prelude.{
  ℕ, zero, suc, ◌+◌, ◌*◌, ◌/◌, ◌%◌, ◌^◌, ◌<◌, ◌≡◌, refl, ◌∙◌, List, [], ◌∷◌, ◌++◌, length,
  length-append, arith, Bool, true, false, ap, take, drop, ◌==◌, if◌then◌else◌,
}

-- The last `k` bytes of a number, the highest first.
unfoldable pub to_be_bytes : ℕ → ℕ → List ℕ
to_be_bytes zero v = []
to_be_bytes (suc k) v = to_be_bytes k (v / 256) ++ (v % 256 ∷ [])

abbrev pub from_be_bytes_acc : ℕ → List ℕ → ℕ
from_be_bytes_acc acc [] = acc
from_be_bytes_acc acc (b ∷ bs) = from_be_bytes_acc (acc * 256 + b) bs

unfoldable pub from_be_bytes : List ℕ → ℕ
from_be_bytes bs = from_be_bytes_acc 0 bs

from_be_bytes_acc-append :
    (acc : ℕ) (xs ys : List ℕ)
    → from_be_bytes_acc acc (xs ++ ys) ≡ from_be_bytes_acc (from_be_bytes_acc acc xs) ys
from_be_bytes_acc-append acc [] ys = refl
from_be_bytes_acc-append acc (x ∷ xs) ys = from_be_bytes_acc-append (acc * 256 + x) xs ys

-- A number that has `k` bytes is read back from them.
pub from_be_bytes-to_be_bytes : (k v : ℕ) → v < 256 ^ k → from_be_bytes (to_be_bytes k v) ≡ v
unfolding from_be_bytes to_be_bytes
from_be_bytes-to_be_bytes zero v h = omega arith
from_be_bytes-to_be_bytes (suc k) v h =
    from_be_bytes_acc-append 0 (to_be_bytes k (v / 256)) (v % 256 ∷ [])
    ∙ omega (arith, from_be_bytes-to_be_bytes k (v / 256) (omega arith))

pub length-to_be_bytes : (k v : ℕ) → length (to_be_bytes k v) ≡ k
unfolding to_be_bytes
length-to_be_bytes zero v = refl
length-to_be_bytes (suc k) v =
    length-append (to_be_bytes k (v / 256)) (v % 256 ∷ [])
    ∙ omega (arith, length-to_be_bytes k (v / 256))

-- Equality of slices.
abbrev pub same_bytes : List ℕ → List ℕ → Bool
same_bytes [] [] = true
same_bytes [] (y ∷ ys) = false
same_bytes (x ∷ xs) [] = false
same_bytes (x ∷ xs) (y ∷ ys) = if x == y then same_bytes xs ys else false

-- What stands at the front of a buffer.
pub take_front : (xs ys : List ℕ) → take (length xs) (xs ++ ys) ≡ xs
take_front [] ys = refl
take_front (x ∷ xs) ys = ap (λ (t : List ℕ). x ∷ t) (take_front xs ys)

pub drop_front : (xs ys : List ℕ) → drop (length xs) (xs ++ ys) ≡ ys
drop_front [] ys = refl
drop_front (x ∷ xs) ys = drop_front xs ys

pub front_at : {n : ℕ} (xs ys : List ℕ) → length xs ≡ n → take n (xs ++ ys) ≡ xs
front_at xs ys l = rw l at (take_front xs ys)

pub back_at : {n : ℕ} (xs ys : List ℕ) → length xs ≡ n → drop n (xs ++ ys) ≡ ys
back_at xs ys l = rw l at (drop_front xs ys)
