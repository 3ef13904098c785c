-- ===== src/Base/Options.antt =====
-- Chains of optional results.
use mathlib.Core.Option.{Option, none, some}

infixl 5 ◌>>=◌
abbrev pub ◌>>=◌ {ℓ m} : {A : Type ℓ} {B : Type m} → Option A → (A → Option B) → Option B
none >>= f = none
some a >>= f = f a
