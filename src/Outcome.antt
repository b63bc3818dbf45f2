-- ===== src/Outcome.antt =====
-- What a call that may fail does: it returns, it returns an `anyhow` error, or it panics.
use rust_torrent.Prelude.{Option, none, some}

pub data Outcome {ℓ} (A : Type ℓ) : Type ℓ where
  ok : A → Outcome A
  bail : Outcome A
  panicked : Outcome A

infixl 5 ◌>>=◌
abbrev pub ◌>>=◌ {ℓ κ} : {A : Type ℓ} {B : Type κ} → Outcome A → (A → Outcome B) → Outcome B
ok a >>= f = f a
bail >>= f = bail
panicked >>= f = panicked

-- `unwrap`
abbrev pub unwrap {ℓ} : {A : Type ℓ} → Option A → Outcome A
unwrap none = panicked
unwrap (some a) = ok a

-- `context(…)?`
abbrev pub or_bail {ℓ} : {A : Type ℓ} → Option A → Outcome A
or_bail none = bail
or_bail (some a) = ok a
