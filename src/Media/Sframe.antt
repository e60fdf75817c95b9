-- ===== src/Media/Sframe.antt =====
-- core/src/media/sframe.cpp: media frames sealed end to end,
-- `[u32 BE epoch][u64 BE counter][ciphertext]`. Text labels are their ASCII codes.
use fin_bit.Prelude.{
  ℕ, ◌+◌, ◌*◌, ◌≡◌, List, [], ◌∷◌, ◌++◌, Option, none, some, Bool, true, false, Bytes, be32, be64,
  read32, read64, length, take, drop, get_or, ltb, eqb, if◌then◌else◌,
}
use fin_bit.Prelude.Result.{Result, ok, err, ◌>>=◌}
use fin_bit.Crypto.Sodium.{Sodium}
use fin_bit.Crypto.Hkdf.{HkdfError, hkdf_extract, hkdf_expand}
use fin_bit.Crypto.Aead.{AeadError, AeadAlg, aes256_gcm, aead_encrypt, aead_decrypt}
pub mod Laws
mod Tests

-- What the calls below may throw.
pub data SframeError : Type 0 where
  hkdf : HkdfError → SframeError
  aead : AeadError → SframeError

abbrev pub lift {ℓ} :
    {E : Type 0} {A : Type ℓ} → (E → SframeError) → Result E A → Result SframeError A
lift f (ok a) = ok a
lift f (err e) = err (f e)

-- "FB-SFrame-key"
abbrev pub info_key : Bytes
info_key = 70 ∷ 66 ∷ 45 ∷ 83 ∷ 70 ∷ 114 ∷ 97 ∷ 109 ∷ 101 ∷ 45 ∷ 107 ∷ 101 ∷ 121 ∷ []

-- "FB-SFrame-nonce"
abbrev pub info_nonce : Bytes
info_nonce = 70 ∷ 66 ∷ 45 ∷ 83 ∷ 70 ∷ 114 ∷ 97 ∷ 109 ∷ 101 ∷ 45 ∷ 110 ∷ 111 ∷ 110 ∷ 99 ∷ 101 ∷ []

-- "FinBit-SFrame-room-v1"
abbrev pub room_label : Bytes
room_label =
    70 ∷ 105 ∷ 110 ∷ 66 ∷ 105 ∷ 116 ∷ 45 ∷ 83 ∷ 70 ∷ 114 ∷ 97 ∷ 109 ∷ 101 ∷ 45 ∷ 114 ∷ 111 ∷ 111
    ∷ 109 ∷ 45 ∷ 118 ∷ 49 ∷ []

abbrev pub rd_u64 : Bytes → ℕ → ℕ
rd_u64 p at = read64 p at

abbrev pub rd_u32 : Bytes → ℕ
rd_u32 p = read32 (get_or p 0 0) (get_or p 1 0) (get_or p 2 0) (get_or p 3 0)

-- The header of a frame, which is its additional data too.
abbrev pub header : ℕ → ℕ → Bytes
header epoch counter = be32 epoch ++ be64 counter

module _ (sodium : Sodium) where
  unfoldable pub hkdf_expand_label : ℕ → Bytes → Bytes → ℕ → ℕ → Result SframeError Bytes
  hkdf_expand_label size base label epoch counter =
      let info = label ++ be32 epoch ++ be64 counter in
      let prk = hkdf_extract sodium [] base in lift hkdf (hkdf_expand sodium prk info size)

  unfoldable pub derive_room_sframe_key : Bytes → Bytes → ℕ → Result SframeError Bytes
  derive_room_sframe_key room_secret sender_pubkey epoch =
      let info = room_label ++ sender_pubkey ++ be32 epoch in
      let prk = hkdf_extract sodium [] room_secret in lift hkdf (hkdf_expand sodium prk info 32)

  unfoldable pub sframe_seal_v1 : Bool → Bytes → ℕ → ℕ → Bytes → Result SframeError Bytes
  sframe_seal_v1 hw base_key epoch counter plaintext =
      hkdf_expand_label 32 base_key info_key epoch counter >>= λ key.
      hkdf_expand_label 12 base_key info_nonce epoch counter >>= λ nonce.
      lift aead (aead_encrypt sodium hw aes256_gcm key nonce plaintext (header epoch counter))
      >>= λ ct. ok (header epoch counter ++ ct)

  unfoldable pub sframe_open_v1 : Bool → Bytes → Bytes → Result SframeError (Option Bytes)
  sframe_open_v1 hw base_key sealed =
      let epoch = rd_u32 sealed in
      let counter = rd_u64 sealed 4 in
      if ltb (length sealed) 12
      then ok none
      else (hkdf_expand_label 32 base_key info_key epoch counter >>= λ key.
          hkdf_expand_label 12 base_key info_nonce epoch counter >>= λ nonce.
          lift aead
            (aead_decrypt sodium hw aes256_gcm key nonce (drop 12 sealed) (header epoch counter)))

unfoldable pub sframe_peek_epoch : Bytes → Option ℕ
sframe_peek_epoch sealed = if ltb (length sealed) 12 then none else some (rd_u32 sealed)
