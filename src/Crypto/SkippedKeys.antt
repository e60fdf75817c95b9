-- ===== src/Crypto/SkippedKeys.antt =====
-- core/src/crypto/ratchet.cpp and sender_keys.cpp: the cache of the keys that were passed over, a
-- `std::map` in the order of a public key or chain id and a number.
use fin_bit.Prelude.{
  ℕ, ◌+◌, ◌≤◌, ◌≡◌, refl, List, [], ◌∷◌, none, some, Bool, true, false, Bytes, less, ◌==◌, ==_iff,
  nat_eq, list_eq, pair_eq, length, ltb, if◌then◌else◌, arith, Option-cases, inl, inr,
}
use fin_bit.Prelude.Dict.{lookup}

abbrev pub Skipped : Type 0
Skipped = List ((Bytes × ℕ) × Bytes)

-- `operator<` of the keys of the cache.
unfoldable pub key_less : Bytes × ℕ → Bytes × ℕ → Bool
key_less (a, i) (b, j) = if less a b then true else (if less b a then false else ltb i j)

-- Where a key that is missing goes in the order of the map.
unfoldable pub insert_sorted : Bytes × ℕ → Bytes → Skipped → Skipped
unfolding key_less
insert_sorted key mk [] = (key, mk) ∷ []
insert_sorted key mk ((other, old) ∷ rest) =
    let later = insert_sorted key mk rest in
    if key_less other key then (other, old) ∷ later else (key, mk) ∷ (other, old) ∷ rest

-- `std::map::emplace`: a key that is there keeps its value.
unfoldable pub emplace : Bytes × ℕ → Bytes → Skipped → Skipped
unfolding insert_sorted
emplace key mk m = elim (lookup key m) [ some old ↦ m | none ↦ insert_sorted key mk m ]

lookup-insert_sorted :
    (key probe : Bytes × ℕ) (mk : Bytes) (m : Skipped)
    → lookup key m ≡ none
    → lookup probe (insert_sorted key mk m) ≡ (if key == probe then some mk else lookup probe m)
unfolding lookup insert_sorted
lookup-insert_sorted key probe mk [] missing = refl
lookup-insert_sorted key probe mk ((other, old) ∷ rest) missing = ground (
  arith,
  ==_iff {A = Bytes × ℕ} other probe,
  ==_iff {A = Bytes × ℕ} other key,
  ==_iff {A = Bytes × ℕ} key probe,
  lookup-insert_sorted key probe mk rest,
)

pub lookup-emplace :
    (key probe : Bytes × ℕ) (mk : Bytes) (m : Skipped)
    → lookup key m ≡ none
    → lookup probe (emplace key mk m) ≡ (if key == probe then some mk else lookup probe m)
unfolding emplace
lookup-emplace key probe mk m missing =
    rw (missing, emplace) (lookup-insert_sorted key probe mk m missing)

length-insert_sorted :
    (key : Bytes × ℕ) (mk : Bytes) (m : Skipped) → length (insert_sorted key mk m) ≡ length m + 1
unfolding insert_sorted
length-insert_sorted key mk [] = refl
length-insert_sorted key mk ((other, old) ∷ rest) = ground (arith, length-insert_sorted key mk rest)

-- A key that is there keeps its value.
pub lookup-emplace-kept :
    (key probe : Bytes × ℕ) (mk : Bytes) (m : Skipped)
    → lookup probe (emplace key mk m) ≡ elim (lookup probe m) [
      | some old ↦ some old
      | none ↦ if key == probe then some mk else none
    ]
unfolding emplace
lookup-emplace-kept key probe mk m = elim (Option-cases (lookup key m)) [
  | inl missing ↦
      rw (missing, emplace)
        (ground
          (arith, ==_iff {A = Bytes × ℕ} key probe, lookup-insert_sorted key probe mk m missing))
  | inr (old, found) ↦ rw (found, emplace) (ground (arith, ==_iff {A = Bytes × ℕ} key probe))
]

pub length-emplace-le :
    (key : Bytes × ℕ) (mk : Bytes) (m : Skipped) → length (emplace key mk m) ≤ length m + 1
unfolding emplace
length-emplace-le key mk m = elim (Option-cases (lookup key m)) [
  | inl missing ↦ rw (missing, emplace) (omega (arith, length-insert_sorted key mk m))
  | inr (old, found) ↦ rw (found, emplace) (omega arith)
]
