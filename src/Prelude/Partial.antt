-- ===== src/Prelude/Partial.antt =====
-- Code with undefined steps: it has a result, or none once it has left an array or met an
-- indeterminate value.
use mathlib.Core.Path.{◌≡◌, refl}
use mathlib.Core.Option.{Option, none, some}
use mathlib.Core.Bool.{Bool, true, false}

module _ {ℓ κ} {A : Type ℓ} {B : Type κ} where
  infixl 5 ◌>>=◌
  abbrev pub ◌>>=◌ : Option A → (A → Option B) → Option B
  none >>= next = none
  some a >>= next = next a

  -- A chain that has a result has one after each step.
  pub >>=-eq-some :
      {b : B} (act : Option A) (next : A → Option B)
      → act >>= next ≡ some b
      → (a : A) × (next a ≡ some b) × (act ≡ some a)
  >>=-eq-some none next done = cc
  >>=-eq-some (some a) next done = (a, done, refl)

infixl 5 ◌>>◌
abbrev pub ◌>>◌ {κ} : {B : Type κ} → Option (Unit {0}) → Option B → Option B
none >> after = none
some _ >> after = after

-- The step is defined only if the test holds.
abbrev pub require : Bool → Option (Unit {0})
require true = some tt
require false = none

-- The code has a result.
abbrev pub Defined {ℓ} : {A : Type ℓ} → Option A → Type ℓ
Defined {A = A} act = (a : A) × (act ≡ some a)
