-- ===== src/Crypto/Shamir/Product.antt =====
-- core/src/crypto/shamir.cpp: the laws of `gf_mul` and `gf_div`.
use fin_bit.Prelude.{
  ℕ, zero, suc, ◌+◌, ◌-◌, ◌%◌, ◌<◌, ◌≡◌, refl, sym, ap, ◌∙◌, ◌≢◌, ◌⊎◌, inl, inr, eqb, if◌then◌else◌,
  byte_xor, byte_xor_lt, byte_xor_self, arith,
}
use fin_bit.Prelude.Result.{ok}
use fin_bit.Crypto.Shamir.{exp, gf_div, gf_mul, log, times_three}
use fin_bit.Crypto.Shamir.Tables.{
  exp_lem, exp_next, log_lem, times_three_lt, times_three_zero, times_three-byte_xor,
}

pub zero_or_not : (a : ℕ) → (a ≡ 0) ⊎ (a ≢ 0)
zero_or_not zero = inl refl
zero_or_not (suc a) = inr (λ e. omega arith)

pub mul_zero_left : (b : ℕ) → gf_mul 0 b ≡ 0
unfolding gf_mul
mul_zero_left b = refl

mul_nonzero : (a b : ℕ) → a ≢ 0 → b ≢ 0 → gf_mul a b ≡ exp ((log a + log b) % 255)
unfolding gf_mul
mul_nonzero a b ha hb = ground arith

pub mul_zero_right : (a : ℕ) → gf_mul a 0 ≡ 0
unfolding gf_mul
mul_zero_right a = ground arith

pub mul_comm : (a b : ℕ) → gf_mul a b ≡ gf_mul b a
mul_comm a b = elim (zero_or_not a) [
  | inl ea ↦ rw ea (mul_zero_left b ∙ sym (mul_zero_right b))
  | inr ha ↦ elim (zero_or_not b) [
    | inl eb ↦ rw eb (mul_zero_right a ∙ sym (mul_zero_left a))
    | inr hb ↦ mul_nonzero a b ha hb ∙ ap exp (omega (arith)) ∙ sym (mul_nonzero b a hb ha)
  ]
]

pub mul_lt : (a b : ℕ) → gf_mul a b < 256
mul_lt a b = elim (zero_or_not a) [
  | inl ea ↦ rw ea (rw (mul_zero_left b) (omega arith))
  | inr ha ↦ elim (zero_or_not b) [
    | inl eb ↦ rw eb (rw (mul_zero_right a) (omega arith))
    | inr hb ↦ rw (mul_nonzero a b ha hb) (exp_lem ((log a + log b) % 255) (omega arith)).0
  ]
]

-- A product of bytes that are not 0 is none.
pub mul_ne : (a b : ℕ) → a ≢ 0 → b ≢ 0 → gf_mul a b ≢ 0
mul_ne a b ha hb = rw (mul_nonzero a b ha hb) (exp_lem ((log a + log b) % 255) (omega arith)).1

log_mul : (a b : ℕ) → a ≢ 0 → b ≢ 0 → log (gf_mul a b) ≡ (log a + log b) % 255
log_mul a b ha hb = rw (mul_nonzero a b ha hb) (exp_lem ((log a + log b) % 255) (omega arith)).2

sums : (l m n : ℕ) → ((l + m) % 255 + n) % 255 ≡ (l + (m + n) % 255) % 255
sums l m n = omega arith

pub mul_assoc : (a b c : ℕ) → gf_mul (gf_mul a b) c ≡ gf_mul a (gf_mul b c)
mul_assoc a b c = elim (zero_or_not a) [
  | inl ea ↦ rw ea (rw (mul_zero_left b, mul_zero_left c, mul_zero_left (gf_mul b c)) refl)
  | inr ha ↦ elim (zero_or_not b) [
    | inl eb ↦ rw eb (rw (mul_zero_right a, mul_zero_left c, mul_zero_right a) refl)
    | inr hb ↦ elim (zero_or_not c) [
      | inl ec ↦ rw ec (rw (mul_zero_right (gf_mul a b), mul_zero_right b, mul_zero_right a) refl)
      | inr hc ↦
          mul_nonzero (gf_mul a b) c (mul_ne a b ha hb) hc
          ∙ rw (log_mul a b ha hb) (
              ap exp (sums (log a) (log b) (log c))
              ∙ sym
                  (mul_nonzero a (gf_mul b c) ha (mul_ne b c hb hc) ∙ rw (log_mul b c hb hc) refl))
    ]
  ]
]

-- n times the product with 3.
power : ℕ → ℕ → ℕ
power zero x = x
power (suc n) x = times_three (power n x)

power-exp : (n k : ℕ) → power n (exp (k % 255)) ≡ exp ((k + n) % 255)
unfolding power
power-exp zero k = ap exp (omega arith)
power-exp (suc n) k =
    ap times_three (power-exp n k)
    ∙ sym (exp_next ((k + n) % 255) (omega arith))
    ∙ ap exp (omega arith)

power_zero : (n : ℕ) → power n 0 ≡ 0
unfolding power
power_zero zero = refl
power_zero (suc n) = rw (power_zero n) times_three_zero

power_lt : (n x : ℕ) → x < 256 → power n x < 256
unfolding power
power_lt zero x h = h
power_lt (suc n) x h = times_three_lt (power n x)

power-byte_xor :
    (n x y : ℕ) → x < 256 → y < 256 → power n (byte_xor x y) ≡ byte_xor (power n x) (power n y)
unfolding power
power-byte_xor zero x y hx hy = refl
power-byte_xor (suc n) x y hx hy =
    ap times_three (power-byte_xor n x y hx hy)
    ∙ times_three-byte_xor (power n x) (power n y) (power_lt n x hx) (power_lt n y hy)

mul-power : (a b : ℕ) → a < 256 → b < 256 → a ≢ 0 → gf_mul a b ≡ power (log a) b
mul-power a b ha hb nonzero = elim (zero_or_not b) [
  | inl eb ↦ rw eb (mul_zero_right a ∙ sym (power_zero (log a)))
  | inr nb ↦
      let (lt, back) = log_lem b hb nb in
      mul_nonzero a b nonzero nb
      ∙ ap exp (omega arith)
      ∙ sym (power-exp (log a) (log b))
      ∙ ap (power (log a)) (ap exp (omega arith) ∙ back)
]

pub mul-byte_xor :
    (a b c : ℕ)
    → a < 256
    → b < 256
    → c < 256
    → gf_mul a (byte_xor b c) ≡ byte_xor (gf_mul a b) (gf_mul a c)
mul-byte_xor a b c ha hb hc = elim (zero_or_not a) [
  | inl ea ↦
      rw ea (
        rw (mul_zero_left (byte_xor b c), mul_zero_left b, mul_zero_left c) (sym (byte_xor_self 0)))
  | inr nonzero ↦
      mul-power a (byte_xor b c) ha (byte_xor_lt b c) nonzero
      ∙ power-byte_xor (log a) b c hb hc
      ∙ rw (mul-power a b ha hb nonzero, mul-power a c ha hc nonzero) refl
]

log_one : log 1 ≡ 0
unfolding log
log_one = refl

power_none : (x : ℕ) → power 0 x ≡ x
unfolding power
power_none x = refl

pub mul_one : (a : ℕ) → a < 256 → gf_mul 1 a ≡ a
mul_one a h = mul-power 1 a (omega arith) h (λ e. omega arith) ∙ rw log_one (power_none a)

-- The reciprocal, 0 for 0.
pub inverse : ℕ → ℕ
inverse b = if eqb b 0 then 0 else exp ((255 - log b) % 255)

pub inverse_lt : (b : ℕ) → inverse b < 256
unfolding inverse
inverse_lt b = elim (zero_or_not b) [
  | inl e ↦ rw e (omega arith)
  | inr h ↦ ground (arith, exp_lem ((255 - log b) % 255) (omega arith))
]

inverse_nonzero : (b : ℕ) → b ≢ 0 → inverse b ≡ exp ((255 - log b) % 255)
unfolding inverse
inverse_nonzero b h = ground arith

exp_zero : exp 0 ≡ 1
unfolding exp
exp_zero = refl

pub mul-inverse : (b : ℕ) → b < 256 → b ≢ 0 → gf_mul b (inverse b) ≡ 1
mul-inverse b hb h =
    let lt = (log_lem b hb h).0 in
    let (small, nonzero, back) = exp_lem ((255 - log b) % 255) (omega arith) in
    rw (inverse_nonzero b h) (
      mul_nonzero b (exp ((255 - log b) % 255)) h nonzero
      ∙ rw back (ap exp (omega arith) ∙ exp_zero))

pub inverse_zero : inverse 0 ≡ 0
unfolding inverse
inverse_zero = refl

quotient : (a b : ℕ) → a ≢ 0 → b ≢ 0 → gf_div a b ≡ ok (exp ((log a + 255 - log b) % 255))
unfolding gf_div
quotient a b ha hb = ground arith

pub gf_div-mul : (a b : ℕ) → a < 256 → b < 256 → b ≢ 0 → gf_div a b ≡ ok (gf_mul a (inverse b))
unfolding gf_div
gf_div-mul a b ha hb h = elim (zero_or_not a) [
  | inl e ↦ rw e (ap ok (sym (mul_zero_left (inverse b))))
  | inr nonzero ↦
      let lt = (log_lem b hb h).0 in
      let (small, ni, back) = exp_lem ((255 - log b) % 255) (omega arith) in
      quotient a b nonzero h
      ∙ ap ok (
          rw (inverse_nonzero b h) (
            sym (
              mul_nonzero a (exp ((255 - log b) % 255)) nonzero ni
              ∙ rw back (
                  ap exp {x = (log a + (255 - log b) % 255) % 255} {y = (log a + 255 - log b) % 255}
                    (omega arith)))))
]
