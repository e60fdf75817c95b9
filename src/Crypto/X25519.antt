-- ===== src/Crypto/X25519.antt =====
-- The calls of libsodium for X25519, which is not part of the repository.
use fin_bit.Prelude.{
  ◌+◌, ◌≡◌, refl, Option, none, some, false, Bytes, length, get_or, replicate, eqb, if◌then◌else◌,
  arith,
}

pub record X25519 : Type 0 where
  -- `crypto_scalarmult_base`: the public key of a private key.
  pub base : Bytes → Option Bytes
  -- `crypto_scalarmult`: private key, public key; fails for a point of low order.
  pub scalarmult : Bytes → Bytes → Option Bytes

-- What the documentation of libsodium says of them: two users with key pairs compute the same
-- secret.
pub record IsX25519 (x : X25519) : Type 0 where
  pub length-base : (priv public : Bytes) → x.base priv ≡ some public → length public ≡ 32
  pub agree :
      (a b : Bytes) {a_pub b_pub : Bytes}
      → x.base a ≡ some a_pub
      → x.base b ≡ some b_pub
      → (dh : Bytes) × (x.scalarmult a b_pub ≡ some dh) × (x.scalarmult b a_pub ≡ some dh)

-- A concrete instance, for the tests: keys are known by their first byte, and zero is a point of low
-- order.
abbrev pub toy_x25519 : X25519
toy_x25519 = record {
  base = λ priv. some (replicate 32 (get_or priv 0 0 + 1));
  scalarmult = λ priv public.
      if eqb (get_or public 0 0) 0
      then none
      else some (replicate 32 (get_or priv 0 0 + get_or public 0 0));
}

toy_agree :
    (a b : Bytes) (b_pub : Bytes)
    → toy_x25519.base b ≡ some b_pub
    → toy_x25519.scalarmult a b_pub ≡ some (replicate 32 (get_or a 0 0 + get_or b 0 0 + 1))
toy_agree a b b_pub hb =
    let is_pub : replicate 32 (get_or b 0 0 + 1) ≡ b_pub = cc in
    let honest : eqb (get_or b 0 0 + 1) 0 ≡ false = ground arith in
    let sum : get_or a 0 0 + (get_or b 0 0 + 1) ≡ get_or a 0 0 + get_or b 0 0 + 1 = omega arith in
    rw (← is_pub) (rw honest (rw sum refl))

pub toy_x25519-IsX25519 : IsX25519 toy_x25519
toy_x25519-IsX25519 = record {
  length-base = λ priv public h.
      let is_pub : replicate 32 (get_or priv 0 0 + 1) ≡ public = cc in rw (← is_pub) refl;
  agree = λ a b {a_pub} {b_pub} ha hb. (
    replicate 32 (get_or a 0 0 + get_or b 0 0 + 1),
    toy_agree a b b_pub hb,
    (let swap : get_or a 0 0 + get_or b 0 0 + 1 ≡ get_or b 0 0 + get_or a 0 0 + 1 = omega arith in
        rw swap (toy_agree b a a_pub ha)),
  );
}
