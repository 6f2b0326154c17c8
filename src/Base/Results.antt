-- ===== src/Base/Results.antt =====
-- A call that returns a value or raises, one call after another, and what they tell when the whole
-- returns.
use mathlib.Core.Path.{◌≡◌, refl}
use mathlib.Core.Logic.{◌↔◌}
use mathlib.Core.Bool.{Bool, true, false}
use mathlib.Core.Option.{Option, none, some}
use native.Mathlib.Omega.{arith}

pub data Result {ℓ κ} (E : Type ℓ) (A : Type κ) : Type (ℓ ⊔ κ) where
  ok : A → Result E A
  err : E → Result E A

infixl 5 ◌>>=◌ ◌>>◌
abbrev pub ◌>>=◌ : {E A B : Type 0} → Result E A → (A → Result E B) → Result E B
ok a >>= f = f a
err e >>= f = err e

abbrev pub ◌>>◌ : {E A B : Type 0} → Result E A → Result E B → Result E B
m >> r = m >>= λ _. r

-- `if test: raise e`
abbrev pub refuse : {E : Type 0} → Bool → E → Result E (Unit {0})
refuse true e = err e
refuse false e = ok tt

-- A value or an exception.
abbrev pub or_raise : {E A : Type 0} → E → Option A → Result E A
or_raise e none = err e
or_raise e (some a) = ok a

-- `except`, which maps what it catches.
abbrev pub caught : {E F A : Type 0} → (E → F) → Result E A → Result F A
caught f (ok a) = ok a
caught f (err e) = err (f e)

pub refuse-done : {E : Type 0} (b : Bool) (e : E) → (refuse b e ≡ ok tt) ↔ (b ≡ false)
refuse-done true e = (λ h. absurd (ground (arith, h)), λ h. absurd (ground (arith, h)))
refuse-done false e = (λ h. refl, λ h. refl)

module _ {E A : Type 0} where
  pub refuse-ok :
      (b : Bool) (e : E) (r : Result E A) (a : A)
      → (refuse b e >> r ≡ ok a) ↔ ((b ≡ false) × (r ≡ ok a))
  refuse-ok true e r a = (λ h. absurd (ground (arith, h)), λ h. absurd (ground (arith, h.0)))
  refuse-ok false e r a = (λ h. (refl, h), λ h. h.1)

  pub bind-ok :
      {B : Type 0} (m : Result E B) (f : B → Result E A) (a : A)
      → m >>= f ≡ ok a
      → (b : B) × (m ≡ ok b) × (f b ≡ ok a)
  bind-ok (ok b) f a h = (b, refl, h)
  bind-ok (err e) f a h = absurd (ground (arith, h))

  -- Of checks in a row.
  pub then-ok :
      (m : Result E (Unit {0})) (r : Result E A) (a : A) → m >> r ≡ ok a → (m ≡ ok tt) × (r ≡ ok a)
  then-ok (ok tt) r a h = (refl, h)
  then-ok (err e) r a h = absurd (ground (arith, h))

  -- The first of two calls whose values differ in type.
  pub first-ok :
      {B : Type 0} (m : Result E B) (r : Result E A) (a : A) → m >> r ≡ ok a → (b : B) × (m ≡ ok b)
  first-ok (ok b) r a h = (b, refl)
  first-ok (err e) r a h = absurd (ground (arith, h))

  pub or_raise-ok : (o : Option A) (e : E) (a : A) → or_raise e o ≡ ok a → o ≡ some a
  or_raise-ok none e a h = absurd (ground (arith, h))
  or_raise-ok (some b) e a h = ground (arith, h)

  pub caught-ok : {F : Type 0} (f : E → F) (r : Result E A) (a : A) → caught f r ≡ ok a → r ≡ ok a
  caught-ok f (ok b) a h = ground (arith, h)
  caught-ok f (err e) a h = absurd (ground (arith, h))
