-- ===== src/Crypto/Shamir/ByteField.antt =====
-- The bytes of core/src/crypto/shamir.cpp as a field.
use mathlib.Core.HLevel.{Σ_prop_path}
use native.Mathlib.Bridge.{le_prop}
use fin_bit.Prelude.{
  ℕ, ◌%◌, ◌<◌, ◌≡◌, refl, sym, ap, ◌∙◌, ◌≢◌, inl, inr, [], ◌∷◌, map, Bytes, IsBytes, byte_xor,
  byte_xor_lt, byte_xor_assoc, byte_xor_comm, byte_xor_zero, byte_xor_self, arith,
}
use fin_bit.Crypto.Shamir.{gf_eval, gf_mul}
use fin_bit.Crypto.Shamir.Algebra.{Field, poly}
use fin_bit.Crypto.Shamir.Product.{
  inverse, inverse_lt, inverse_zero, mul-byte_xor, mul-inverse, mul_assoc, mul_comm, mul_lt, mul_ne,
  mul_one, mul_zero_left, mul_zero_right, zero_or_not,
}

abbrev pub Byte : Type 0
Byte = (n : ℕ) × (n < 256)

pub byte_eq : {a b : Byte} → a.0 ≡ b.0 → a ≡ b
byte_eq = Σ_prop_path (λ n. le_prop)

abbrev pub to_byte : ℕ → Byte
to_byte n = (n % 256, omega arith)

abbrev add : Byte → Byte → Byte
add a b = (byte_xor a.0 b.0, byte_xor_lt a.0 b.0)

abbrev mul : Byte → Byte → Byte
mul a b = (gf_mul a.0 b.0, mul_lt a.0 b.0)

-- A reciprocal is the only one.
inverse_only : (a b : ℕ) → a < 256 → b < 256 → a ≢ 0 → gf_mul a b ≡ 1 → inverse a ≡ b
inverse_only a b ha hb h e =
    sym (mul_one (inverse a) (inverse_lt a))
    ∙ mul_comm 1 (inverse a)
    ∙ ap (gf_mul (inverse a)) (sym e)
    ∙ sym (mul_assoc (inverse a) a b)
    ∙ rw (mul_comm (inverse a) a, mul-inverse a ha h) (mul_one b hb)

pairs : (a b c d : ℕ) → gf_mul (gf_mul a b) (gf_mul c d) ≡ gf_mul (gf_mul a c) (gf_mul b d)
pairs a b c d =
    mul_assoc a b (gf_mul c d)
    ∙ ap (gf_mul a) (sym (mul_assoc b c d) ∙ ap (λ z. gf_mul z d) (mul_comm b c) ∙ mul_assoc c b d)
    ∙ sym (mul_assoc a c (gf_mul b d))

pub inverse-mul :
    (a b : ℕ) → a < 256 → b < 256 → inverse (gf_mul a b) ≡ gf_mul (inverse a) (inverse b)
inverse-mul a b ha hb = elim (zero_or_not a) [
  | inl e ↦ rw e (rw (mul_zero_left b, inverse_zero) (sym (mul_zero_left (inverse b))))
  | inr na ↦ elim (zero_or_not b) [
    | inl e ↦ rw e (rw (mul_zero_right a, inverse_zero) (sym (mul_zero_right (inverse a))))
    | inr nb ↦
        inverse_only (gf_mul a b) (gf_mul (inverse a) (inverse b)) (mul_lt a b)
          (mul_lt (inverse a) (inverse b)) (mul_ne a b na nb)
          (pairs a b (inverse a) (inverse b)
            ∙ rw (mul-inverse a ha na, mul-inverse b hb nb) (mul_one 1 (omega arith)))
  ]
]

pub one_ne : to_byte 1 ≢ to_byte 0
one_ne e = omega (arith, ap (λ (b : Byte). b.0) e)

unfoldable pub byte_field : Field Byte
byte_field = record {
  add = add;
  mul = mul;
  nought = to_byte 0;
  unit = to_byte 1;
  inv = λ a. (inverse a.0, inverse_lt a.0);
  add_assoc = λ a b c. byte_eq (byte_xor_assoc a.0 b.0 c.0);
  add_comm = λ a b. byte_eq (byte_xor_comm a.0 b.0);
  add_nought = λ a. byte_eq (byte_xor_zero a.0 a.1);
  add_self = λ a. byte_eq (byte_xor_self a.0);
  mul_assoc = λ a b c. byte_eq (mul_assoc a.0 b.0 c.0);
  mul_comm = λ a b. byte_eq (mul_comm a.0 b.0);
  mul_unit = λ a. byte_eq (mul_one a.0 a.1);
  mul_nought = λ a. byte_eq (mul_zero_left a.0);
  mul-add = λ a b c. byte_eq (mul-byte_xor a.0 b.0 c.0 a.1 b.1 c.1);
  unit_ne = one_ne;
  mul-inv = λ a h. byte_eq (mul-inverse a.0 a.1 (λ e. h (byte_eq e)));
  inv-mul = λ a b. byte_eq (inverse-mul a.0 b.0 a.1 b.1);
}

pub add_value : (a b : Byte) → (byte_field.add a b).0 ≡ byte_xor a.0 b.0
unfolding byte_field
add_value a b = refl

-- `gf_eval` is the polynomial.
pub gf_eval-poly :
    (c : ℕ) (coeffs : Bytes) (x : Byte)
    → IsBytes (c ∷ coeffs)
    → (poly byte_field (map to_byte (c ∷ coeffs)) x).0 ≡ gf_eval (c ∷ coeffs) x.0
unfolding poly gf_eval byte_field
gf_eval-poly c [] x (hc, h) =
    rw (mul_zero_right x.0) (byte_xor_zero (c % 256) (omega arith) ∙ omega arith)
gf_eval-poly c (d ∷ coeffs) x (hc, h) =
    byte_xor_comm (c % 256) (gf_mul x.0 (poly byte_field (map to_byte (d ∷ coeffs)) x).0)
    ∙ rw (mul_comm x.0 (poly byte_field (map to_byte (d ∷ coeffs)) x).0, gf_eval-poly d coeffs x h)
        (ap (byte_xor (gf_mul (gf_eval (d ∷ coeffs) x.0) x.0)) (omega arith))
