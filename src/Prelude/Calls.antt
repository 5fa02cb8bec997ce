-- ===== src/Prelude/Calls.antt =====
-- A call that returns or throws, and the chain of steps that may lack a result (a loop whose fuel
-- ran out).
use mathlib.Core.Option.{Option, none, some}

pub data Result {ℓ} (E : Type 0) (A : Type ℓ) : Type ℓ where
  ok : A → Result E A
  err : E → Result E A

-- Where it does not matter what is thrown.
pub data Call {ℓ} (A : Type ℓ) : Type ℓ where
  returned : A → Call A
  threw : Call A

infixl 5 ◌>>=◌
abbrev pub ◌>>=◌ {ℓ κ} : {A : Type ℓ} {B : Type κ} → Option A → (A → Option B) → Option B
none >>= f = none
some a >>= f = f a
