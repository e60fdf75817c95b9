-- ===== src/Crypto/Hkdf/Tests.antt =====
-- A key of 40 bytes: a whole block and a part of the next.
use fin_bit.Prelude.{◌≡◌, [], ◌∷◌, length, take, arith}
use fin_bit.Prelude.Result.{ok}
use fin_bit.Crypto.Sodium.{toy_sodium, toy_sodium-IsSodium}
use fin_bit.Crypto.Hkdf.{hkdf_expand}
use fin_bit.Crypto.Hkdf.Laws as Laws
use fin_bit.Crypto.Hkdf.Laws.{rfc_blocks}

hkdf_expand-rfc_example :
    (hkdf_expand toy_sodium (1 ∷ []) (2 ∷ []) 40
      ≡ ok (take 40 (rfc_blocks toy_sodium 255 (1 ∷ []) (2 ∷ []) 0 [])))
    × (length (take 40 (rfc_blocks toy_sodium 255 (1 ∷ []) (2 ∷ []) 0 [])) ≡ 40)
hkdf_expand-rfc_example =
    Laws.hkdf_expand-rfc toy_sodium toy_sodium-IsSodium (1 ∷ []) (2 ∷ []) 40 (omega arith)
      (omega arith)
