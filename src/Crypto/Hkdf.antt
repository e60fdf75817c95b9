-- ===== src/Crypto/Hkdf.antt =====
-- core/src/crypto/hkdf.cpp: HKDF-SHA256 on libsodium's HMAC.
use fin_bit.Prelude.{
  ℕ, zero, suc, ◌+◌, ◌-◌, ◌*◌, ◌%◌, min, ◌≡◌, List, [], ◌∷◌, ◌++◌, Bool, true, false, ◌||◌, Bytes,
  length, take, replicate, ltb, eqb, if◌then◌else◌,
}
use fin_bit.Prelude.Result.{Result, ok, err}
use fin_bit.Crypto.Sodium.{Sodium}
pub mod Laws
mod Tests

-- `std::invalid_argument`
pub data HkdfError : Type 0 where
  okm_len_out_of_range : HkdfError

abbrev pub hkdf_sha256_bytes : ℕ
hkdf_sha256_bytes = 32

module _ (sodium : Sodium) where
  -- Updates of an HMAC state hash what they are given, one after the other.
  unfoldable pub hkdf_extract : Bytes → Bytes → Bytes
  hkdf_extract salt ikm =
      let key = if eqb (length salt) 0 then replicate hkdf_sha256_bytes 0 else salt in
      sodium.hmac key ikm

  -- The loop: the bytes written so far, the block before (empty at first) and the 8-bit counter.
  unfoldable pub expand_blocks : ℕ → Bytes → Bytes → ℕ → Bytes → Bytes → ℕ → Bytes
  expand_blocks zero prk info okm_len okm t counter = okm
  expand_blocks (suc fuel) prk info okm_len okm t counter = elim (ltb (length okm) okm_len) [
    | false ↦ okm
    | true ↦
        let next = (counter + 1) % 256 in
        let t' = sodium.hmac prk (t ++ info ++ next ∷ []) in
        expand_blocks fuel prk info okm_len
          (okm ++ take (min hkdf_sha256_bytes (okm_len - length okm)) t') t' next
  ]

  -- A block has 32 bytes and the length is at most 255 blocks.
  unfoldable pub hkdf_expand : Bytes → Bytes → ℕ → Result HkdfError Bytes
  hkdf_expand prk info okm_len =
      if eqb okm_len 0 || ltb (255 * hkdf_sha256_bytes) okm_len
      then err okm_len_out_of_range
      else ok (expand_blocks 255 prk info okm_len [] [] 0)
