-- ===== src/Prelude/Sums.antt =====
-- The sum of a measure over an array, and how each array operation changes it.
use Prim.Native.Nat.{ℕ, zero, suc, ◌+◌, ◌≤◌, ◌<◌}
use mathlib.Core.Path.{◌≡◌}
use mathlib.Core.List.{List, [], ◌∷◌, ◌++◌}
use mathlib.Core.Option.{some}
use native.Mathlib.Omega.{arith}
use limine_eucleia.Prelude.Lists.{get_elem?, set, take}

module _ {ℓ} {A : Type ℓ} where
  abbrev pub sum_by : (A → ℕ) → List A → ℕ
  sum_by f [] = 0
  sum_by f (x ∷ xs) = f x + sum_by f xs

module _ {ℓ} {A : Type ℓ} (f : A → ℕ) where
  pub sum_by-append : (xs ys : List A) → sum_by f (xs ++ ys) ≡ sum_by f xs + sum_by f ys
  sum_by-append [] ys = omega arith
  sum_by-append (x ∷ xs) ys = omega (arith, sum_by-append xs ys)

  pub sum_by-set :
      (xs : List A) (i : ℕ) (v : A) {x : A}
      → get_elem? xs i ≡ some x
      → sum_by f (set xs i v) + f x ≡ sum_by f xs + f v
  sum_by-set [] i v h = absurd (ground arith)
  sum_by-set (y ∷ xs) zero v {x} h = ground arith
  sum_by-set (y ∷ xs) (suc i) v h = omega (arith, sum_by-set xs i v h)

  pub sum_by-take-suc :
      (xs : List A) (i : ℕ) {x : A}
      → get_elem? xs i ≡ some x
      → sum_by f (take (suc i) xs) ≡ sum_by f (take i xs) + f x
  sum_by-take-suc [] i h = absurd (ground arith)
  sum_by-take-suc (y ∷ xs) zero h = ground arith
  sum_by-take-suc (y ∷ xs) (suc i) h = omega (arith, sum_by-take-suc xs i h)

  -- A write at the index behind the prefix, alone or with an entry appended.
  pub sum_by-take-suc-set :
      (xs : List A) (i : ℕ) (v : A) {x : A}
      → get_elem? xs i ≡ some x
      → sum_by f (take (suc i) (set xs i v)) ≡ sum_by f (take i xs) + f v
  sum_by-take-suc-set [] i v h = absurd (ground arith)
  sum_by-take-suc-set (y ∷ xs) zero v h = omega arith
  sum_by-take-suc-set (y ∷ xs) (suc i) v h = omega (arith, sum_by-take-suc-set xs i v h)

  pub sum_by-take-suc_append :
      (xs ys : List A) (i : ℕ) (v : A) {x : A}
      → get_elem? xs i ≡ some x
      → sum_by f (take (suc i) (set xs i v ++ ys)) ≡ sum_by f (take i xs) + f v
  sum_by-take-suc_append [] ys i v h = absurd (ground arith)
  sum_by-take-suc_append (y ∷ xs) ys zero v h = omega arith
  sum_by-take-suc_append (y ∷ xs) ys (suc i) v h = omega (arith, sum_by-take-suc_append xs ys i v h)

  pub sum_by-take-set :
      (xs : List A) (n i : ℕ) (v : A) {x : A}
      → get_elem? xs i ≡ some x
      → i < n
      → sum_by f (take n (set xs i v)) + f x ≡ sum_by f (take n xs) + f v
  sum_by-take-set xs zero i v h lt = absurd (omega arith)
  sum_by-take-set [] (suc n) i v h lt = absurd (ground arith)
  sum_by-take-set (y ∷ xs) (suc n) zero v h lt = ground arith
  sum_by-take-set (y ∷ xs) (suc n) (suc i) v h lt =
      omega (arith, sum_by-take-set xs n i v h (omega arith))

  pub sum_by-set_append :
      (xs : List A) (i : ℕ) (v w : A) {x : A}
      → get_elem? xs i ≡ some x
      → sum_by f (set xs i v ++ (w ∷ [])) + f x ≡ sum_by f xs + f v + f w
  sum_by-set_append xs i v w h =
      omega (arith, sum_by-set xs i v h, sum_by-append (set xs i v) (w ∷ []))

  pub sum_by-take-le : (xs : List A) (i : ℕ) → sum_by f (take i xs) ≤ sum_by f xs
  sum_by-take-le xs zero = omega arith
  sum_by-take-le [] (suc i) = omega arith
  sum_by-take-le (x ∷ xs) (suc i) = omega (arith, sum_by-take-le xs i)

  pub le-sum_by : (xs : List A) (i : ℕ) {x : A} → get_elem? xs i ≡ some x → f x ≤ sum_by f xs
  le-sum_by [] i h = absurd (ground arith)
  le-sum_by (y ∷ xs) zero h = ground arith
  le-sum_by (y ∷ xs) (suc i) h = omega (arith, le-sum_by xs i h)

pub sum_by_mono {ℓ} :
    {A : Type ℓ} (f g : A → ℕ) (xs : List A) → ((x : A) → f x ≤ g x) → sum_by f xs ≤ sum_by g xs
sum_by_mono f g [] h = omega arith
sum_by_mono f g (x ∷ xs) h = omega (arith, sum_by_mono f g xs h, h x)
