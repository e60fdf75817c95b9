-- ===== src/Crypto/Shamir/Tables.antt =====
-- core/src/crypto/shamir.cpp: the tables of logarithms and powers, and the product they give.
use fin_bit.Prelude.{
  all_below, all_below_lem, ℕ, zero, suc, ◌+◌, ◌/◌, ◌%◌, ◌^◌, ◌≤◌, ◌<◌, ◌≡◌, refl, sym, ap, subst,
  ◌∙◌, ◌≢◌, Bool, true, ◌||◌, ◌&&◌, eqb, ltb, if◌then◌else◌, byte_xor, byte_xor_lt, byte_xor_assoc,
  byte_xor_zero, arith, Bool-cases, inl, inr,
}
use fin_bit.Crypto.Shamir.{exp, log, times_three}

exp_ok : ℕ → Bool
exp_ok k = ltb (exp k) 256 && ltb 0 (exp k) && eqb (log (exp k)) k

exp_all : all_below 255 exp_ok ≡ true
unfolding exp_ok exp log
exp_all = refl

log_ok : ℕ → Bool
log_ok a = eqb a 0 || (ltb (log a) 255 && eqb (exp (log a)) a)

log_all : all_below 256 log_ok ≡ true
unfolding log_ok exp log
log_all = refl

next_ok : ℕ → Bool
next_ok k = eqb (exp ((k + 1) % 255)) (times_three (exp k))

next_all : all_below 255 next_ok ≡ true
unfolding next_ok exp times_three
next_all = refl

exp_read : (k : ℕ) → exp_ok k ≡ true → (exp k < 256) × (exp k ≢ 0) × (log (exp k) ≡ k)
unfolding exp_ok
exp_read k h = (ground arith, ground arith, ground arith)

log_read : (a : ℕ) → a ≢ 0 → log_ok a ≡ true → (log a < 255) × (exp (log a) ≡ a)
unfolding log_ok
log_read a nonzero h = (ground arith, ground arith)

next_read : (k : ℕ) → next_ok k ≡ true → exp ((k + 1) % 255) ≡ times_three (exp k)
unfolding next_ok
next_read k h = ground arith

pub exp_lem : (k : ℕ) → k < 255 → (exp k < 256) × (exp k ≢ 0) × (log (exp k) ≡ k)
exp_lem k h = let test : exp_ok k ≡ true = all_below_lem 255 exp_ok exp_all k h in exp_read k test

pub log_lem : (a : ℕ) → a < 256 → a ≢ 0 → (log a < 255) × (exp (log a) ≡ a)
log_lem a h nonzero = log_read a nonzero (all_below_lem 256 log_ok log_all a h)

pub exp_next : (k : ℕ) → k < 255 → exp ((k + 1) % 255) ≡ times_three (exp k)
exp_next k h = next_read k (all_below_lem 255 next_ok next_all k h)

-- A byte as a sum of powers of 2, of its n lowest bits.
spell : ℕ → ℕ → ℕ
spell zero y = 0
spell (suc n) y = if eqb (y / 2 ^ n % 2) 1 then byte_xor (spell n y) (2 ^ n) else spell n y

spell_ok : ℕ → Bool
spell_ok y = eqb (spell 8 y) y

spell_all : all_below 256 spell_ok ≡ true
unfolding spell_ok spell byte_xor
spell_all = refl

spell_read : (y : ℕ) → spell_ok y ≡ true → spell 8 y ≡ y
unfolding spell_ok
spell_read y h = ground arith

bit_ok : ℕ → ℕ → Bool
bit_ok n x = eqb (times_three (byte_xor x (2 ^ n))) (byte_xor (times_three x) (times_three (2 ^ n)))

bits_ok : ℕ → Bool
bits_ok n = all_below 256 (bit_ok n)

bits_all : all_below 8 bits_ok ≡ true
unfolding bits_ok bit_ok times_three byte_xor
bits_all = refl

bit_read :
    (n x : ℕ)
    → bit_ok n x ≡ true
    → times_three (byte_xor x (2 ^ n)) ≡ byte_xor (times_three x) (times_three (2 ^ n))
unfolding bit_ok
bit_read n x h = ground arith

bit_lem :
    (n x : ℕ)
    → n < 8
    → x < 256
    → times_three (byte_xor x (2 ^ n)) ≡ byte_xor (times_three x) (times_three (2 ^ n))
unfolding bits_ok
bit_lem n x hn hx =
    bit_read n x (all_below_lem 256 (bit_ok n) (all_below_lem 8 bits_ok bits_all n hn) x hx)

pub times_three_lt : (x : ℕ) → times_three x < 256
unfolding times_three
times_three_lt x = omega arith

spell_lt : (n y : ℕ) → spell n y < 256
unfolding spell
spell_lt zero y = omega arith
spell_lt (suc n) y = elim (Bool-cases (eqb (y / 2 ^ n % 2) 1)) [
  | inl e ↦ rw e (byte_xor_lt (spell n y) (2 ^ n))
  | inr e ↦ rw e (spell_lt n y)
]

pub times_three_zero : times_three 0 ≡ 0
unfolding times_three
times_three_zero = refl

times_three-spell :
    (n x y : ℕ)
    → n ≤ 8
    → x < 256
    → times_three (byte_xor x (spell n y)) ≡ byte_xor (times_three x) (times_three (spell n y))
unfolding spell
times_three-spell zero x y hn hx = rw (byte_xor_zero x hx) (
    sym (
      ap (byte_xor (times_three x)) times_three_zero
      ∙ byte_xor_zero (times_three x) (times_three_lt x)))
times_three-spell (suc n) x y hn hx =
    let s = spell n y in
    let ih = times_three-spell n x y (omega arith) hx in
    elim (Bool-cases (eqb (y / 2 ^ n % 2) 1)) [
      | inl e ↦ rw e (
          rw
            (
              ← (byte_xor_assoc x s (2 ^ n)),
              bit_lem n (byte_xor x s) (omega arith) (byte_xor_lt x s),
              bit_lem n s (omega arith) (spell_lt n y),
              ih,
            )
            (byte_xor_assoc (times_three x) (times_three s) (times_three (2 ^ n))))
      | inr e ↦ rw e ih
    ]

pub times_three-byte_xor :
    (x y : ℕ)
    → x < 256
    → y < 256
    → times_three (byte_xor x y) ≡ byte_xor (times_three x) (times_three y)
times_three-byte_xor x y hx hy =
    let read = spell_read y (all_below_lem 256 spell_ok spell_all y hy) in
    subst (λ z. times_three (byte_xor x z) ≡ byte_xor (times_three x) (times_three z)) read
      (times_three-spell 8 x y (omega arith) hx)
