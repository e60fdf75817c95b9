-- ===== src/Crypto/Sodium.antt =====
-- The calls of libsodium, which is not part of the repository: a parameter of what uses them.
use fin_bit.Prelude.{◌+◌, ◌≡◌, refl, ◌++◌, Option, some, Bytes, length, drop, replicate, arith}

pub record Sodium : Type 0 where
  -- `crypto_auth_hmacsha256`: key, message.
  pub hmac : Bytes → Bytes → Bytes
  -- `crypto_aead_…_encrypt`: key, nonce, additional data, plaintext.
  pub aes_encrypt : Bytes → Bytes → Bytes → Bytes → Bytes
  pub aes_decrypt : Bytes → Bytes → Bytes → Bytes → Option Bytes
  pub xchacha_encrypt : Bytes → Bytes → Bytes → Bytes → Bytes
  pub xchacha_decrypt : Bytes → Bytes → Bytes → Bytes → Option Bytes

-- What the documentation of libsodium says of them.
pub record IsSodium (sodium : Sodium) : Type 0 where
  pub length-hmac : (key message : Bytes) → length (sodium.hmac key message) ≡ 32
  pub aes_round_trip :
      (key nonce aad m : Bytes)
      → sodium.aes_decrypt key nonce aad (sodium.aes_encrypt key nonce aad m) ≡ some m
  pub length-aes :
      (key nonce aad m : Bytes) → length (sodium.aes_encrypt key nonce aad m) ≡ length m + 16
  pub xchacha_round_trip :
      (key nonce aad m : Bytes)
      → sodium.xchacha_decrypt key nonce aad (sodium.xchacha_encrypt key nonce aad m) ≡ some m
  pub length-xchacha :
      (key nonce aad m : Bytes) → length (sodium.xchacha_encrypt key nonce aad m) ≡ length m + 16

-- A concrete instance, for the tests: the tag is zero, the code is a constant.
abbrev pub toy_sodium : Sodium
toy_sodium = record {
  hmac = λ key message. replicate 32 7;
  aes_encrypt = λ key nonce aad m. replicate 16 0 ++ m;
  aes_decrypt = λ key nonce aad c. some (drop 16 c);
  xchacha_encrypt = λ key nonce aad m. replicate 16 0 ++ m;
  xchacha_decrypt = λ key nonce aad c. some (drop 16 c);
}

pub toy_sodium-IsSodium : IsSodium toy_sodium
toy_sodium-IsSodium = record {
  length-hmac = λ key message. refl;
  aes_round_trip = λ key nonce aad m. refl;
  length-aes = λ key nonce aad m. omega arith;
  xchacha_round_trip = λ key nonce aad m. refl;
  length-xchacha = λ key nonce aad m. omega arith;
}
