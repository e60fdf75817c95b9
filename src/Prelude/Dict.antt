-- ===== src/Prelude/Dict.antt =====
-- `std::map` and `std::unordered_map` as association lists. The laws below are in `if` form and
-- hold of every list, so no invariant on the keys is carried.
use Prim.Native.Nat.{◌≤◌, ◌+◌}
use mathlib.Core.Path.{◌≡◌, refl}
use mathlib.Core.Option.{Option, none, some}
use mathlib.Core.List.{List, [], ◌∷◌}
use native.Mathlib.Omega.{arith}
use fin_bit.Prelude.Tests.{if◌then◌else◌}
use fin_bit.Prelude.Lists.{length}
use fin_bit.Prelude.Equality.{Eq, ◌==◌, ==_iff}

module _ {ℓ κ} {K : Type ℓ} {V : Type κ} ⦃e : Eq K⦄ where
  -- `m.erase(key)`
  unfoldable pub erase : (key : K) → List (K × V) → List (K × V)
  erase key [] = []
  erase key ((other, val) ∷ rest) =
      if other == key then erase key rest else (other, val) ∷ erase key rest

  -- `m[key] = new`
  unfoldable pub insert : (key : K) (new : V) → List (K × V) → List (K × V)
  insert key new [] = (key, new) ∷ []
  insert key new ((other, val) ∷ rest) =
      if other == key then (key, new) ∷ rest else (other, val) ∷ insert key new rest

  -- `m.find(key)`
  unfoldable pub lookup : (key : K) → List (K × V) → Option V
  lookup key [] = none
  lookup key ((other, val) ∷ rest) = if other == key then some val else lookup key rest

  pub lookup-insert :
      (key probe : K) (new : V) (m : List (K × V))
      → lookup probe (insert key new m) ≡ (if key == probe then some new else lookup probe m)
  unfolding lookup insert
  lookup-insert key probe new ((other, val) ∷ rest) = ground (
    arith,
    lookup-insert key probe new rest,
    ==_iff other probe,
    ==_iff other key,
    ==_iff key probe,
  )
  lookup-insert key probe new [] = refl

  pub lookup-erase :
      (k j : K) (m : List (K × V)) → lookup j (erase k m) ≡ (if k == j then none else lookup j m)
  unfolding lookup erase
  lookup-erase k j [] = ground arith
  lookup-erase k j ((i, w) ∷ m) =
      ground (arith, ==_iff k j, ==_iff i k, ==_iff i j, lookup-erase k j m)

  pub length-erase-le : (k : K) (m : List (K × V)) → length (erase k m) ≤ length m
  unfolding erase
  length-erase-le k [] = omega arith
  length-erase-le k ((j, w) ∷ m) = ground (arith, length-erase-le k m)

  pub length-insert-le : (k : K) (v : V) (m : List (K × V)) → length (insert k v m) ≤ length m + 1
  unfolding insert
  length-insert-le k v [] = omega arith
  length-insert-le k v ((j, w) ∷ m) = ground (arith, length-insert-le k v m)

  -- `m.find(k)->second`, or the value that `m[k]` creates.
  unfoldable pub lookup_or : V → K → List (K × V) → V
  lookup_or d k m = elim (lookup k m) [ none ↦ d | some v ↦ v ]

  pub lookup_or-some :
      (d : V) (k : K) (m : List (K × V)) (v : V) → lookup k m ≡ some v → lookup_or d k m ≡ v
  unfolding lookup_or
  lookup_or-some d k m v h = rw (h, lookup_or)

  pub lookup_or-none : (d : V) (k : K) (m : List (K × V)) → lookup k m ≡ none → lookup_or d k m ≡ d
  unfolding lookup_or
  lookup_or-none d k m h = rw (h, lookup_or)

  pub lookup_or-insert :
      (d : V) (k j : K) (v : V) (m : List (K × V))
      → lookup_or d j (insert k v m) ≡ (if k == j then v else lookup_or d j m)
  unfolding lookup_or
  lookup_or-insert d k j v m = ground (arith, lookup-insert k j v m)

  pub lookup_or-erase :
      (d : V) (k j : K) (m : List (K × V))
      → lookup_or d j (erase k m) ≡ (if k == j then d else lookup_or d j m)
  unfolding lookup_or
  lookup_or-erase d k j m = ground (arith, lookup-erase k j m)

  -- No key occurs twice, as in a map.
  abbrev pub Distinct : List (K × V) → Type κ
  Distinct [] = Unit
  Distinct ((k, v) ∷ m) = (lookup k m ≡ none) × Distinct m

  pub insert-Distinct : (k : K) (v : V) (m : List (K × V)) → Distinct m → Distinct (insert k v m)
  unfolding insert lookup
  insert-Distinct k v [] d = (refl, tt)
  insert-Distinct k v ((j, w) ∷ m) d =
      ground (arith, ==_iff j k, ==_iff k j, lookup-insert k j v m, insert-Distinct k v m d.1)

  pub erase-Distinct : (k : K) (m : List (K × V)) → Distinct m → Distinct (erase k m)
  unfolding erase
  erase-Distinct k [] d = tt
  erase-Distinct k ((j, w) ∷ m) d = ground (arith, lookup-erase k j m, erase-Distinct k m d.1)
