-- ===== src/Crypto/Aead.antt =====
-- core/src/crypto/aead.cpp: the checks around libsodium's authenticated encryption. `hw` says
-- whether the processor has AES instructions.
use fin_bit.Prelude.{
  ℕ, ◌≡◌, Option, none, some, Bool, true, not, Bytes, length, ltb, if◌then◌else◌, arith,
}
use fin_bit.Prelude.Result.{Result, ok, err}
use fin_bit.Crypto.Sodium.{Sodium, IsSodium}

pub data AeadAlg : Type 0 where
  aes256_gcm xchacha20_poly1305 : AeadAlg

-- The exceptions.
pub data AeadError : Type 0 where
  unsupported_alg hardware_unavailable : AeadError

abbrev pub tag_bytes : ℕ
tag_bytes = 16

module _ (sodium : Sodium) where
  unfoldable pub aead_encrypt :
      Bool → AeadAlg → Bytes → Bytes → Bytes → Bytes → Result AeadError Bytes
  aead_encrypt hw xchacha20_poly1305 key nonce plaintext aad = err unsupported_alg
  aead_encrypt hw aes256_gcm key nonce plaintext aad =
      if not hw then err hardware_unavailable else ok (sodium.aes_encrypt key nonce aad plaintext)

  unfoldable pub aead_decrypt :
      Bool → AeadAlg → Bytes → Bytes → Bytes → Bytes → Result AeadError (Option Bytes)
  aead_decrypt hw xchacha20_poly1305 key nonce ct aad = err unsupported_alg
  aead_decrypt hw aes256_gcm key nonce ct aad =
      if not hw
      then err hardware_unavailable
      else (if ltb (length ct) tag_bytes then ok none else ok (sodium.aes_decrypt key nonce aad ct))

  unfoldable pub xchacha20_encrypt : Bytes → Bytes → Bytes → Bytes → Bytes
  xchacha20_encrypt key nonce plaintext aad = sodium.xchacha_encrypt key nonce aad plaintext

  unfoldable pub xchacha20_decrypt : Bytes → Bytes → Bytes → Bytes → Option Bytes
  xchacha20_decrypt key nonce ct aad =
      if ltb (length ct) tag_bytes then none else sodium.xchacha_decrypt key nonce aad ct

module _ (sodium : Sodium) (h : IsSodium sodium) where
  pub aead_decrypt-aead_encrypt :
      (key nonce aad m c : Bytes)
      → aead_encrypt sodium true aes256_gcm key nonce m aad ≡ ok c
      → aead_decrypt sodium true aes256_gcm key nonce c aad ≡ ok (some m)
  unfolding aead_encrypt aead_decrypt
  aead_decrypt-aead_encrypt key nonce aad m c e =
      let is_c : sodium.aes_encrypt key nonce aad m ≡ c = ground arith in
      ground (arith, h.aes_round_trip key nonce aad m, h.length-aes key nonce aad m)

  pub xchacha20_decrypt-xchacha20_encrypt :
      (key nonce m aad : Bytes)
      → xchacha20_decrypt sodium key nonce (xchacha20_encrypt sodium key nonce m aad) aad ≡ some m
  unfolding xchacha20_encrypt xchacha20_decrypt
  xchacha20_decrypt-xchacha20_encrypt key nonce m aad =
      ground (arith, h.xchacha_round_trip key nonce aad m, h.length-xchacha key nonce aad m)
