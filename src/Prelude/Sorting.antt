-- ===== src/Prelude/Sorting.antt =====
-- `std::sort` with a comparison, as insertion into a sorted list.
use Prim.Native.Nat.{ℕ, suc, ◌+◌}
use mathlib.Core.Path.{◌≡◌, refl, ap, ◌∙◌}
use mathlib.Core.Logic.{inl, inr}
use mathlib.Core.Bool.{Bool, true, false}
use mathlib.Core.List.{List, [], ◌∷◌}
use native.Mathlib.Omega.{arith}
use fin_bit.Prelude.Tests.{Bool-cases, if◌then◌else◌}
use fin_bit.Prelude.Lists.{length}

module _ {A : Type 0} where
  -- How many elements pass a test.
  abbrev pub count : (A → Bool) → List A → ℕ
  count test [] = 0
  count test (x ∷ xs) = (if test x then 1 else 0) + count test xs

module _ {A : Type 0} (before : A → A → Bool) where
  unfoldable pub sort_insert : A → List A → List A
  sort_insert x [] = x ∷ []
  sort_insert x (y ∷ ys) =
      let rest = sort_insert x ys in if before y x then y ∷ rest else x ∷ y ∷ ys

  unfoldable pub sort : List A → List A
  unfolding sort_insert
  sort [] = []
  sort (x ∷ xs) = sort_insert x (sort xs)

  -- The first of the elements is not before x.
  abbrev pub StandsFirst : A → List A → Type 0
  StandsFirst x [] = Unit
  StandsFirst x (y ∷ ys) = before y x ≡ false

  abbrev pub IsSorted : List A → Type 0
  IsSorted [] = Unit
  IsSorted (x ∷ xs) = StandsFirst x xs × IsSorted xs

  module _ (asymm : (x y : A) → before x y ≡ true → before y x ≡ false) where
    sort_insert-StandsFirst :
        (x y : A) (ys : List A)
        → StandsFirst y ys
        → before x y ≡ false
        → StandsFirst y (sort_insert x ys)
    unfolding sort_insert
    sort_insert-StandsFirst x y [] n h = h
    sort_insert-StandsFirst x y (z ∷ zs) n h = elim (Bool-cases (before z x)) [
      | inl later ↦ rw (later, sort_insert) n
      | inr here ↦ rw (here, sort_insert) h
    ]

    sort_insert-IsSorted : (x : A) (ys : List A) → IsSorted ys → IsSorted (sort_insert x ys)
    unfolding sort_insert
    sort_insert-IsSorted x [] s = (tt, tt)
    sort_insert-IsSorted x (y ∷ ys) (first, s) = elim (Bool-cases (before y x)) [
      | inl later ↦
          rw (later, sort_insert)
            (sort_insert-StandsFirst x y ys first (asymm y x later), sort_insert-IsSorted x ys s)
      | inr here ↦ rw (here, sort_insert) (here, (first, s))
    ]

    pub sort-IsSorted : (xs : List A) → IsSorted (sort xs)
    unfolding sort
    sort-IsSorted [] = tt
    sort-IsSorted (x ∷ xs) = sort_insert-IsSorted x (sort xs) (sort-IsSorted xs)

  count-sort_insert :
      (test : A → Bool) (x : A) (ys : List A) → count test (sort_insert x ys) ≡ count test (x ∷ ys)
  unfolding sort_insert
  count-sort_insert test x [] = refl
  count-sort_insert test x (y ∷ ys) = elim (Bool-cases (before y x)) [
    | inl later ↦ rw (later, sort_insert) (omega (arith, count-sort_insert test x ys))
    | inr here ↦ rw (here, sort_insert) refl
  ]

  pub count-sort : (test : A → Bool) (xs : List A) → count test (sort xs) ≡ count test xs
  unfolding sort
  count-sort test [] = refl
  count-sort test (x ∷ xs) = omega (arith, count-sort_insert test x (sort xs), count-sort test xs)

  length-sort_insert : (x : A) (ys : List A) → length (sort_insert x ys) ≡ suc (length ys)
  unfolding sort_insert
  length-sort_insert x [] = refl
  length-sort_insert x (y ∷ ys) = elim (Bool-cases (before y x)) [
    | inl later ↦ rw (later, sort_insert) (ap suc (length-sort_insert x ys))
    | inr here ↦ rw (here, sort_insert) refl
  ]

  pub length-sort : (xs : List A) → length (sort xs) ≡ length xs
  unfolding sort
  length-sort [] = refl
  length-sort (x ∷ xs) = length-sort_insert x (sort xs) ∙ ap suc (length-sort xs)
