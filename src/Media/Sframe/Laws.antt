-- ===== src/Media/Sframe/Laws.antt =====
-- A sealed media frame opens again.
use fin_bit.Prelude.{
  ℕ, ◌+◌, ◌*◌, ◌^◌, ◌≤◌, ◌<◌, ◌≡◌, refl, ap, [], ◌++◌, some, true, false, Bytes, be32, be64,
  read32-be32, length, take, ltb, arith,
}
use fin_bit.Prelude.Result.{ok}
use fin_bit.Crypto.Sodium.{Sodium, IsSodium}
use fin_bit.Crypto.Hkdf.{hkdf_extract}
use fin_bit.Crypto.Hkdf.Laws.{rfc_blocks, hkdf_expand-rfc}
use fin_bit.Crypto.Aead.{aead_encrypt, aead_decrypt-aead_encrypt}
use fin_bit.Media.Sframe.{
  lift, aead, info_key, info_nonce, rd_u32, rd_u64, header, hkdf_expand_label, sframe_seal_v1,
  sframe_open_v1, sframe_peek_epoch,
}

rd_u64-header :
    (epoch counter : ℕ) (ct : Bytes)
    → counter < 2 ^ 64
    → rd_u64 (header epoch counter ++ ct) 4 ≡ counter
rd_u64-header epoch counter ct h = omega arith

rd_u32-header :
    (epoch counter : ℕ) (ct : Bytes) → epoch < 2 ^ 32 → rd_u32 (header epoch counter ++ ct) ≡ epoch
rd_u32-header epoch counter ct h = read32-be32 epoch h

-- The first 12 bytes of a frame are its epoch and its counter.
pub sframe_peek_epoch-header :
    (epoch counter : ℕ) (ct : Bytes)
    → epoch < 2 ^ 32
    → sframe_peek_epoch (header epoch counter ++ ct) ≡ some epoch
unfolding sframe_peek_epoch
sframe_peek_epoch-header epoch counter ct h =
    let long : ltb (length (header epoch counter ++ ct)) 12 ≡ false = ground (arith) in
    rw (long, sframe_peek_epoch) (ap some (rd_u32-header epoch counter ct h))

module _ (sodium : Sodium) (h : IsSodium sodium) where
  hkdf_expand_label-ok :
      (size : ℕ) (base label : Bytes) (epoch counter : ℕ)
      → 0 < size
      → size ≤ 255 * 32
      → (key : Bytes) × (hkdf_expand_label sodium size base label epoch counter ≡ ok key)
        × (length key ≡ size)
  unfolding hkdf_expand_label
  hkdf_expand_label-ok size base label epoch counter pos le =
      let prk = hkdf_extract sodium [] base in
      let info : Bytes = label ++ be32 epoch ++ be64 counter in
      let r = hkdf_expand-rfc sodium h prk info size pos le in
      (take size (rfc_blocks sodium 255 prk info 0 []), rw (r.0, hkdf_expand_label) refl, r.1)

  -- On a processor with AES instructions a frame is sealed, its epoch can be read from its header,
  -- and the same base key opens it.
  pub sframe_open_v1-sframe_seal_v1 :
      (base_key plaintext : Bytes) (epoch counter : ℕ)
      → epoch < 2 ^ 32
      → counter < 2 ^ 64
      → (sealed : Bytes) × (sframe_seal_v1 sodium true base_key epoch counter plaintext ≡ ok sealed)
        × (sframe_open_v1 sodium true base_key sealed ≡ ok (some plaintext))
        × (sframe_peek_epoch sealed ≡ some epoch)
        × (length sealed ≡ 12 + length plaintext + 16)
  unfolding sframe_seal_v1 sframe_open_v1 aead_encrypt
  sframe_open_v1-sframe_seal_v1 base_key plaintext epoch counter he hc =
      let (key, is_key, _) =
        hkdf_expand_label-ok 32 base_key info_key epoch counter (omega arith) (omega arith) in
      let (nonce, is_nonce, _) =
        hkdf_expand_label-ok 12 base_key info_nonce epoch counter (omega arith) (omega arith) in
      let ct : Bytes = sodium.aes_encrypt key nonce (header epoch counter) plaintext in
      let long : ltb (length (header epoch counter ++ ct)) 12 ≡ false = ground arith in
      (
        header epoch counter ++ ct,
        rw (is_key, sframe_seal_v1) (rw (is_nonce, sframe_seal_v1) refl),
        rw (long, sframe_open_v1)
            (rw (rd_u32-header epoch counter ct he, sframe_open_v1)
              (rw (rd_u64-header epoch counter ct hc, sframe_open_v1)
                (rw (is_key, sframe_open_v1)
                  (rw (is_nonce, sframe_open_v1)
                    (ap (lift aead) (
                      aead_decrypt-aead_encrypt sodium h key nonce (header epoch counter) plaintext
                        ct refl)))))),
        sframe_peek_epoch-header epoch counter ct he,
        omega (arith, h.length-aes key nonce (header epoch counter) plaintext),
      )
