-- ===== src/Crypto/Shamir/Encoding.antt =====
-- core/src/crypto/shamir.cpp: shares as byte strings.
use fin_bit.Prelude.{ℕ, ◌≡◌, refl, subst, inl, inr, [], ◌∷◌, Bytes, eqb, arith, Bool-cases}
use fin_bit.Prelude.Result.{ok}
use fin_bit.Crypto.Shamir.{Share, decode_share, encode_share}

encode_share-decode :
    (x : ℕ) (y bytes : Bytes)
    → encode_share (record { x = x; y = y }) ≡ ok bytes
    → decode_share bytes ≡ ok (record { x = x; y = y })
unfolding encode_share decode_share
encode_share-decode x [] bytes e = ground arith
encode_share-decode x (b ∷ y) bytes e = elim (Bool-cases (eqb x 0)) [
  | inl z ↦ absurd (ground arith)
  | inr n ↦
      let same : x ∷ b ∷ y ≡ bytes = ground arith in
      subst (λ l. decode_share l ≡ ok (record { x = x; y = b ∷ y })) same (rw n refl)
]

-- Sending a share and reading it gives it back.
pub decode_share-encode_share :
    (s : Share) (bytes : Bytes) → encode_share s ≡ ok bytes → decode_share bytes ≡ ok s
decode_share-encode_share s bytes e = encode_share-decode s.x s.y bytes e

-- The byte strings that are read are those that are sent.
pub encode_share-decode_share :
    (s : Share) (bytes : Bytes) → decode_share bytes ≡ ok s → encode_share s ≡ ok bytes
unfolding decode_share encode_share
encode_share-decode_share s [] e = absurd (ground arith)
encode_share-decode_share s (x ∷ []) e = absurd (ground arith)
encode_share-decode_share s (x ∷ b ∷ bytes) e = elim (Bool-cases (eqb x 0)) [
  | inl z ↦ absurd (ground arith)
  | inr n ↦
      let same : record { x = x; y = b ∷ bytes } ≡ s = ground arith in
      subst (λ t. encode_share t ≡ ok (x ∷ b ∷ bytes)) same (ground arith)
]
