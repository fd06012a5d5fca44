-- ===== src/Common/Maybe.antt =====
-- Chains of steps that may stop without a result, such as a loop body with `continue`.

use mathlib.Core.Path.{◌≡◌, refl}
use mathlib.Core.Bool.{Bool, true, false}
use mathlib.Core.Option.{Option, none, some}

infixl 5 ◌>>=◌ ◌>>◌
abbrev pub ◌>>=◌ {ℓ κ} : {A : Type ℓ} {B : Type κ} → Option A → (A → Option B) → Option B
none >>= f = none
some a >>= f = f a

abbrev pub ◌>>◌ {ℓ} : {B : Type ℓ} → Option (Unit {0}) → Option B → Option B
m >> k = m >>= λ _. k

-- Stops unless the test holds.
abbrev pub guard : Bool → Option (Unit {0})
guard true = some tt
guard false = none

-- A property of the result, if there is one.
abbrev pub AllOf {ℓ κ} : {A : Type ℓ} → (A → Type κ) → Option A → Type κ
AllOf P none = Unit
AllOf P (some a) = P a

module _ {ℓ κ} {B : Type ℓ} (P : B → Type κ) where
  pub AllOf-bind {ι} :
      {A : Type ι} (o : Option A) (f : A → Option B)
      → ((a : A) → o ≡ some a → AllOf P (f a))
      → AllOf P (o >>= f)
  AllOf-bind none f h = tt
  AllOf-bind (some a) f h = h a refl

  pub AllOf-guard : (b : Bool) (k : Option B) → (b ≡ true → AllOf P k) → AllOf P (guard b >> k)
  AllOf-guard true k h = h refl
  AllOf-guard false k h = tt
