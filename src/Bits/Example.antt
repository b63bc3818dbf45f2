-- ===== src/Bits/Example.antt =====
-- Bit arrays as lists of Booleans: the behaviour that `Bits` asks for can be met.
use rust_torrent.Prelude.{
  ℕ, zero, suc, ◌*◌, ◌≤◌, ◌<◌, ◌≡◌, ◌≢◌, refl, ap, sym, Bool, true, false, not, ◌&&◌, ◌||◌, List,
  [], ◌∷◌, length, set, get_or, replicate, length-set, length-replicate, get_or-set_self,
  get_or-set_ne, ltb, leb, ◌==◌, ==→eq, if◌then◌else◌, range_from, keep_if, arith, Bool-cases, inl,
  inr,
}
use rust_torrent.Bits.{Bits}

abbrev pub get : List Bool → ℕ → Bool
get b i = get_or b i false

abbrev pub fill : List Bool → ℕ → ℕ → Bool → List Bool
fill [] s e v = []
fill (x ∷ b) s zero v = x ∷ b
fill (x ∷ b) zero (suc e) v = v ∷ fill b zero e v
fill (x ∷ b) (suc s) (suc e) v = x ∷ fill b s e v

abbrev pub all : List Bool → ℕ → ℕ → Bool
all b s zero = true
all [] s (suc e) = leb (suc e) s
all (x ∷ b) zero (suc e) = x && all b zero e
all (x ∷ b) (suc s) (suc e) = all b s e

abbrev pub zip_bits : (Bool → Bool → Bool) → List Bool → List Bool → List Bool
zip_bits f [] b = []
zip_bits f (x ∷ a) [] = f x false ∷ zip_bits f a []
zip_bits f (x ∷ a) (y ∷ b) = f x y ∷ zip_bits f a b

pub get-replicate : (n i : ℕ) → get (replicate n false) i ≡ false
get-replicate zero i = refl
get-replicate (suc n) zero = refl
get-replicate (suc n) (suc i) = get-replicate n i

ne_of_test : (a b : ℕ) → (a == b) ≡ false → a ≢ b
ne_of_test a b f e = ground arith

pub get-set :
    (b : List Bool) (i : ℕ) (v : Bool) (j : ℕ)
    → i < length b
    → get (set b i v) j ≡ (if j == i then v else get b j)
get-set b i v j h = elim (Bool-cases (j == i)) [
  | inl t ↦ rw (t, ==→eq j i t) (get_or-set_self b i v false h)
  | inr f ↦ rw f (get_or-set_ne b i j v false (λ e. ne_of_test j i f (sym e)))
]

pub length-fill : (b : List Bool) (s e : ℕ) (v : Bool) → length (fill b s e v) ≡ length b
length-fill [] s e v = refl
length-fill (x ∷ b) s zero v = refl
length-fill (x ∷ b) zero (suc e) v = ap suc (length-fill b zero e v)
length-fill (x ∷ b) (suc s) (suc e) v = ap suc (length-fill b s e v)

pub get-fill :
    (b : List Bool) (s e : ℕ) (v : Bool) (j : ℕ)
    → e ≤ length b
    → get (fill b s e v) j ≡ (if leb s j && ltb j e then v else get b j)
get-fill [] s e v j h = ground arith
get-fill (x ∷ b) s zero v j h = ground arith
get-fill (x ∷ b) zero (suc e) v zero h = ground arith
get-fill (x ∷ b) zero (suc e) v (suc j) h = ground (arith, get-fill b zero e v j)
get-fill (x ∷ b) (suc s) (suc e) v zero h = ground arith
get-fill (x ∷ b) (suc s) (suc e) v (suc j) h = ground (arith, get-fill b s e v j)

pub length-zip : (f : Bool → Bool → Bool) (a b : List Bool) → length (zip_bits f a b) ≡ length a
length-zip f [] b = refl
length-zip f (x ∷ a) [] = ap suc (length-zip f a [])
length-zip f (x ∷ a) (y ∷ b) = ap suc (length-zip f a b)

pub get-zip :
    (f : Bool → Bool → Bool) (a b : List Bool) (i : ℕ)
    → length a ≡ length b
    → i < length a
    → get (zip_bits f a b) i ≡ f (get a i) (get b i)
get-zip f [] b i e h = absurd (omega arith)
get-zip f (x ∷ a) [] i e h = absurd (omega arith)
get-zip f (x ∷ a) (y ∷ b) zero e h = refl
get-zip f (x ∷ a) (y ∷ b) (suc i) e h = get-zip f a b i (omega arith) (omega arith)

pub all→get :
    (b : List Bool) (s e : ℕ) → all b s e ≡ true → (j : ℕ) → s ≤ j → j < e → get b j ≡ true
all→get b s zero h j lo hi = absurd (omega arith)
all→get [] s (suc e) h j lo hi = ground arith
all→get (x ∷ b) zero (suc e) h zero lo hi = ground arith
all→get (x ∷ b) zero (suc e) h (suc j) lo hi =
    all→get b zero e (ground arith) j (omega arith) (omega arith)
all→get (x ∷ b) (suc s) (suc e) h zero lo hi = absurd (omega arith)
all→get (x ∷ b) (suc s) (suc e) h (suc j) lo hi = all→get b s e h j (omega arith) (omega arith)

pub get→all :
    (b : List Bool) (s e : ℕ) → ((j : ℕ) → s ≤ j → j < e → get b j ≡ true) → all b s e ≡ true
get→all b s zero h = refl
get→all [] s (suc e) h = ground (arith, h e)
get→all (x ∷ b) zero (suc e) h =
    rw (h 0 (omega arith) (omega arith))
      (get→all b zero e (λ j lo hi. h (suc j) (omega arith) (omega arith)))
get→all (x ∷ b) (suc s) (suc e) h = get→all b s e (λ j lo hi. h (suc j) (omega arith) (omega arith))

instance abbrev pub list_bits : Bits (List Bool)
list_bits = record {
  len = length;
  get = get;
  zeros = λ n. replicate (n * 8) false;
  set = set;
  fill = fill;
  all = all;
  iter_ones = λ b. keep_if (get b) (range_from 0 (length b));
  and_not = zip_bits (λ x y. not x && y);
  bit_or = zip_bits ◌||◌;
  bit_and = zip_bits ◌&&◌;
  len-zeros = λ n. length-replicate (n * 8) false;
  get-zeros = λ n i. get-replicate (n * 8) i;
  len-set = length-set;
  get-set = get-set;
  len-fill = length-fill;
  get-fill = get-fill;
  all_iff = λ b s e. (all→get b s e, get→all b s e);
  iter_ones-eq = λ b. refl;
  len-and_not = λ a b e. length-zip (λ x y. not x && y) a b;
  get-and_not = get-zip (λ x y. not x && y);
  len-or = λ a b e. length-zip ◌||◌ a b;
  get-or = get-zip ◌||◌;
  len-and = λ a b e. length-zip ◌&&◌ a b;
  get-and = get-zip ◌&&◌;
}
