-- ===== src/Prelude/Xor.antt =====
-- `a ^ b` of bytes, from the lowest bit up.
use Prim.Native.Nat.{ℕ, zero, suc, ◌+◌, ◌*◌, ◌/◌, ◌%◌, ◌^◌, ◌<◌}
use mathlib.Core.Path.{◌≡◌, refl}
use native.Mathlib.Omega.{arith}

abbrev pub xor_bits : ℕ → ℕ → ℕ → ℕ
xor_bits zero a b = 0
xor_bits (suc n) a b = 2 * xor_bits n (a / 2) (b / 2) + (a + b) % 2

unfoldable pub byte_xor : ℕ → ℕ → ℕ
byte_xor a b = xor_bits 8 a b

xor_bits_lt : (n a b : ℕ) → xor_bits n a b < 2 ^ n
xor_bits_lt zero a b = omega arith
xor_bits_lt (suc n) a b = omega (arith, xor_bits_lt n (a / 2) (b / 2))

half : (x y : ℕ) → (2 * x + y % 2) / 2 ≡ x
half x y = omega arith

xor_bits_twice : (n a b : ℕ) → a < 2 ^ n → xor_bits n (xor_bits n a b) b ≡ a
xor_bits_twice zero a b h = omega arith
xor_bits_twice (suc n) a b h =
    rw (half (xor_bits n (a / 2) (b / 2)) (a + b))
      (omega (arith, xor_bits_twice n (a / 2) (b / 2) (omega arith)))

xor_bits_comm : (n a b : ℕ) → xor_bits n a b ≡ xor_bits n b a
xor_bits_comm zero a b = refl
xor_bits_comm (suc n) a b = omega (arith, xor_bits_comm n (a / 2) (b / 2))

xor_bits_self : (n a : ℕ) → xor_bits n a a ≡ 0
xor_bits_self zero a = refl
xor_bits_self (suc n) a = omega (arith, xor_bits_self n (a / 2))

pub byte_xor_lt : (a b : ℕ) → byte_xor a b < 256
unfolding byte_xor
byte_xor_lt a b = xor_bits_lt 8 a b

pub byte_xor_twice : (a b : ℕ) → a < 256 → byte_xor (byte_xor a b) b ≡ a
unfolding byte_xor
byte_xor_twice a b h = xor_bits_twice 8 a b h

pub byte_xor_comm : (a b : ℕ) → byte_xor a b ≡ byte_xor b a
unfolding byte_xor
byte_xor_comm a b = xor_bits_comm 8 a b

pub byte_xor_self : (a : ℕ) → byte_xor a a ≡ 0
unfolding byte_xor
byte_xor_self a = xor_bits_self 8 a

xor_bits_zero : (n a : ℕ) → a < 2 ^ n → xor_bits n a 0 ≡ a
xor_bits_zero zero a h = omega arith
xor_bits_zero (suc n) a h = omega (arith, xor_bits_zero n (a / 2) (omega arith))

pub byte_xor_zero : (a : ℕ) → a < 256 → byte_xor a 0 ≡ a
unfolding byte_xor
byte_xor_zero a h = xor_bits_zero 8 a h

xor_bits_assoc : (n a b c : ℕ) → xor_bits n (xor_bits n a b) c ≡ xor_bits n a (xor_bits n b c)
xor_bits_assoc zero a b c = refl
xor_bits_assoc (suc n) a b c =
    rw (half (xor_bits n (a / 2) (b / 2)) (a + b), half (xor_bits n (b / 2) (c / 2)) (b + c))
      (omega (arith, xor_bits_assoc n (a / 2) (b / 2) (c / 2)))

pub byte_xor_assoc : (a b c : ℕ) → byte_xor (byte_xor a b) c ≡ byte_xor a (byte_xor b c)
unfolding byte_xor
byte_xor_assoc a b c = xor_bits_assoc 8 a b c
