-- ===== src/Base/Results.antt =====
-- The results of code that may crash and of loops on fuel.
use mathlib.Core.Option.{Option, none, some}
use mathlib.Core.Path.{◌≡◌}

-- `crash` is an access outside an array or through a pointer that is no longer good. `stuck` is no
-- result of the code: the fuel of the model was used up.
pub data Outcome {ℓ} (A : Type ℓ) : Type ℓ where
  ok : A → Outcome A
  crash : Outcome A
  stuck : Outcome A

infixl 5 ◌>>=◌
abbrev pub ◌>>=◌ {ℓ κ} : {A : Type ℓ} {B : Type κ} → Outcome A → (A → Outcome B) → Outcome B
ok a >>= f = f a
crash >>= f = crash
stuck >>= f = stuck

unfoldable pub from_option {ℓ} : {A : Type ℓ} → Option A → Outcome A
from_option none = crash
from_option (some a) = ok a

-- An option holds one value.
pub same_some {ℓ} : {A : Type ℓ} {o : Option A} {a b : A} → o ≡ some a → o ≡ some b → a ≡ b
same_some p q = cc
