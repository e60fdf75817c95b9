-- ===== src/Prelude/ByteStrings.antt =====
-- Byte strings: `std::vector<std::uint8_t>`, `std::string` and spans of them are lists of numbers
-- below 256. Big-endian fields are written with the shifts and masks of the source.
use Prim.Native.Nat.{ℕ, ◌+◌, ◌*◌, ◌/◌, ◌%◌, ◌^◌, ◌<◌}
use mathlib.Core.Path.{◌≡◌, refl, ap}
use mathlib.Core.Bool.{Bool, true, false}
use mathlib.Core.List.{List, [], ◌∷◌, ◌++◌}
use native.Mathlib.Omega.{arith}
use fin_bit.Prelude.Tests.{eqb, ltb, if◌then◌else◌}
use fin_bit.Prelude.Lists.{get_or, length, take, drop}

abbrev pub Bytes : Type 0
Bytes = List ℕ

-- Every element is a byte.
abbrev pub IsBytes : Bytes → Type 0
IsBytes [] = Unit
IsBytes (x ∷ xs) = (x < 256) × IsBytes xs

-- `static_cast<std::uint8_t>((v >> k) & 0xff)`
abbrev pub byte_at : ℕ → ℕ → ℕ
byte_at v k = v / 2 ^ k % 256

abbrev pub be16 : ℕ → Bytes
be16 v = byte_at v 8 ∷ byte_at v 0 ∷ []

abbrev pub be32 : ℕ → Bytes
be32 v = byte_at v 24 ∷ byte_at v 16 ∷ byte_at v 8 ∷ byte_at v 0 ∷ []

abbrev pub be64 : ℕ → Bytes
be64 v =
    byte_at v 56
    ∷ byte_at v 48
    ∷ byte_at v 40
    ∷ byte_at v 32
    ∷ byte_at v 24
    ∷ byte_at v 16
    ∷ byte_at v 8
    ∷ byte_at v 0
    ∷ []

-- What `c_str()` hands to SQLite: the bytes before the first zero.
unfoldable pub c_str : Bytes → Bytes
c_str [] = []
c_str (c ∷ cs) = let rest = c_str cs in if eqb c 0 then [] else c ∷ rest

pub c_str-c_str : (name : Bytes) → c_str (c_str name) ≡ c_str name
unfolding c_str
c_str-c_str [] = refl
c_str-c_str (c ∷ cs) = ground (arith, c_str-c_str cs)

-- `operator<` of two arrays.
unfoldable pub less : Bytes → Bytes → Bool
less [] b = false
less (x ∷ xs) [] = false
less (x ∷ xs) (y ∷ ys) = if ltb x y then true else (if ltb y x then false else less xs ys)

pub less_asymm : (a b : Bytes) → less a b ≡ true → less b a ≡ false
unfolding less
less_asymm [] b h = absurd (ground arith)
less_asymm (x ∷ xs) [] h = absurd (ground arith)
less_asymm (x ∷ xs) (y ∷ ys) h = ground (arith, less_asymm xs ys)

-- `(a << 8) | b`: the operands share no bit, so `|` is `+`.
abbrev pub read16 : ℕ → ℕ → ℕ
read16 a b = a * 256 + b

abbrev pub read32 : ℕ → ℕ → ℕ → ℕ → ℕ
read32 a b c d = a * 2 ^ 24 + b * 2 ^ 16 + c * 2 ^ 8 + d

-- `v = (v << 8) | p[i]` for eight bytes from the offset on.
abbrev pub read64 : Bytes → ℕ → ℕ
read64 p i =
    (((((((get_or p i 0 * 256 + get_or p (i + 1) 0) * 256 + get_or p (i + 2) 0) * 256
                      + get_or p (i + 3) 0)
                    * 256
                  + get_or p (i + 4) 0)
                * 256
              + get_or p (i + 5) 0)
            * 256
          + get_or p (i + 6) 0)
        * 256
      + get_or p (i + 7) 0)

pub read16-be16 : (v : ℕ) → v < 2 ^ 16 → read16 (byte_at v 8) (byte_at v 0) ≡ v
read16-be16 v h = omega arith

pub read32-be32 :
    (v : ℕ) → v < 2 ^ 32 → read32 (byte_at v 24) (byte_at v 16) (byte_at v 8) (byte_at v 0) ≡ v
read32-be32 v h = omega arith

module _ {ℓ} {A : Type ℓ} where
  pub take-length-append : (xs ys : List A) → take (length xs) (xs ++ ys) ≡ xs
  take-length-append [] ys = refl
  take-length-append (x ∷ xs) ys = ap (◌∷◌ x) (take-length-append xs ys)

  pub drop-length-append : (xs ys : List A) → drop (length xs) (xs ++ ys) ≡ ys
  drop-length-append [] ys = refl
  drop-length-append (x ∷ xs) ys = drop-length-append xs ys
