-- ===== src/Prelude/Collections.antt =====
-- `std::find` and the erase-remove idiom on vectors.
use Prim.Native.Nat.{◌≤◌}
use mathlib.Core.Path.{◌≡◌, refl}
use mathlib.Core.Bool.{Bool, true, false, ◌||◌}
use mathlib.Core.List.{List, [], ◌∷◌, ◌++◌}
use native.Mathlib.Omega.{arith}
use fin_bit.Prelude.Tests.{if◌then◌else◌}
use fin_bit.Prelude.Lists.{length}
use fin_bit.Prelude.Equality.{Eq, ◌==◌, ==_iff}

module _ {ℓ} {A : Type ℓ} ⦃e : Eq A⦄ where
  -- `std::find(v.begin(), v.end(), x) != v.end()`
  unfoldable pub contains : A → List A → Bool
  contains x [] = false
  contains x (y ∷ ys) = if y == x then true else contains x ys

  -- `v.erase(std::remove(v.begin(), v.end(), x), v.end())`
  unfoldable pub remove : A → List A → List A
  remove x [] = []
  remove x (y ∷ ys) = if y == x then remove x ys else y ∷ remove x ys

  pub contains-append :
      (x : A) (ys zs : List A) → contains x (ys ++ zs) ≡ contains x ys || contains x zs
  unfolding contains
  contains-append x [] zs = refl
  contains-append x (y ∷ ys) zs = ground (arith, contains-append x ys zs)

  pub contains-snoc :
      (x y : A) (ys : List A) → contains x (ys ++ y ∷ []) ≡ (if y == x then true else contains x ys)
  unfolding contains
  contains-snoc x y [] = refl
  contains-snoc x y (z ∷ ys) = ground (arith, contains-snoc x y ys)

  pub contains-remove :
      (x y : A) (ys : List A) → contains x (remove y ys) ≡ (if y == x then false else contains x ys)
  unfolding contains remove
  contains-remove x y [] = ground arith
  contains-remove x y (z ∷ ys) =
      ground (arith, ==_iff z y, ==_iff z x, ==_iff y x, contains-remove x y ys)

  pub length-remove-le : (x : A) (ys : List A) → length (remove x ys) ≤ length ys
  unfolding remove
  length-remove-le x [] = omega arith
  length-remove-le x (y ∷ ys) = ground (arith, length-remove-le x ys)
