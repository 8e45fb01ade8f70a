-- ===== src/Prelude/Runs.antt =====
-- What a run of the bootloader's code comes to: a value, a call of panic(), or the end of a loop's
-- fuel, which the termination theorems exclude.
use mathlib.Core.Path.{◌≡◌, refl}
use mathlib.Core.Logic.{◌≢◌}
use mathlib.Core.Bool.{Bool, true, false}
use limine_eucleia.Prelude.Tests.{if◌then◌else◌}

pub data Result {ℓ} (A : Type ℓ) : Type ℓ where
  ok : A → Result A
  panic : Result A
  out_of_fuel : Result A

infixl 5 ◌>>=◌
abbrev pub ◌>>=◌ {ℓ κ} : {A : Type ℓ} {B : Type κ} → Result A → (A → Result B) → Result B
ok a >>= f = f a
panic >>= f = panic
out_of_fuel >>= f = out_of_fuel

-- The run ends, and where it does not panic its value satisfies `P`.
abbrev pub Ends {ℓ} : {A : Type ℓ} → Result A → (A → Type 0) → Type 0
Ends (ok a) P = P a
Ends panic P = Unit
Ends out_of_fuel P = ⊥

-- The run ends with a value, and the value satisfies `P`.
abbrev pub Returns {ℓ} : {A : Type ℓ} → Result A → (A → Type 0) → Type 0
Returns (ok a) P = P a
Returns panic P = ⊥
Returns out_of_fuel P = ⊥

module _ {ℓ} {A : Type ℓ} where
  pub Ends_mono : (r : Result A) (P Q : A → Type 0) → ((a : A) → P a → Q a) → Ends r P → Ends r Q
  Ends_mono (ok a) P Q h p = h a p
  Ends_mono panic P Q h p = tt
  Ends_mono out_of_fuel P Q h p = p

  pub Returns_mono :
      (r : Result A) (P Q : A → Type 0) → ((a : A) → P a → Q a) → Returns r P → Returns r Q
  Returns_mono (ok a) P Q h p = h a p
  Returns_mono panic P Q h p = p
  Returns_mono out_of_fuel P Q h p = p

  pub Ends_of_Returns : (r : Result A) (P : A → Type 0) → Returns r P → Ends r P
  Ends_of_Returns (ok a) P p = p
  Ends_of_Returns panic P p = tt
  Ends_of_Returns out_of_fuel P p = p

  pub Ends-ok : (r : Result A) (P : A → Type 0) {a : A} → Ends r P → r ≡ ok a → P a
  Ends-ok r P p e = rw e at p

  pub Returns_of_Ends : (r : Result A) (P : A → Type 0) → Ends r P → r ≢ panic → Returns r P
  Returns_of_Ends (ok a) P p h = p
  Returns_of_Ends panic P p h = h refl
  Returns_of_Ends out_of_fuel P p h = p

  -- A run that ends, followed by another.
  pub Ends-bind {κ} :
      {B : Type κ} (r : Result A) (f : A → Result B) (P : A → Type 0) (Q : B → Type 0)
      → Ends r P
      → ((a : A) → P a → Ends (f a) Q)
      → Ends (r >>= f) Q
  Ends-bind (ok a) f P Q p h = h a p
  Ends-bind panic f P Q p h = tt
  Ends-bind out_of_fuel f P Q p h = p

  pub Returns-bind {κ} :
      {B : Type κ} (r : Result A) (f : A → Result B) (P : A → Type 0) (Q : B → Type 0)
      → Returns r P
      → ((a : A) → P a → Returns (f a) Q)
      → Returns (r >>= f) Q
  Returns-bind (ok a) f P Q p h = h a p
  Returns-bind panic f P Q p h = absurd p
  Returns-bind out_of_fuel f P Q p h = absurd p

  pub Returns-if :
      (b : Bool) (x y : Result A) (P : A → Type 0)
      → (b ≡ true → Returns x P)
      → (b ≡ false → Returns y P)
      → Returns (if b then x else y) P
  Returns-if true x y P h g = h refl
  Returns-if false x y P h g = g refl

  pub Ends-if :
      (b : Bool) (x y : Result A) (P : A → Type 0)
      → (b ≡ true → Ends x P)
      → (b ≡ false → Ends y P)
      → Ends (if b then x else y) P
  Ends-if true x y P h g = h refl
  Ends-if false x y P h g = g refl

  pub Returns-ok : (r : Result A) (P : A → Type 0) → Returns r P → (a : A) × (r ≡ ok a) × P a
  Returns-ok (ok a) P p = (a, refl, p)
  Returns-ok panic P p = absurd p
  Returns-ok out_of_fuel P p = absurd p
