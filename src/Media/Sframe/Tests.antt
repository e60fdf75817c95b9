-- ===== src/Media/Sframe/Tests.antt =====
-- One sealed frame.
use fin_bit.Prelude.{◌≡◌, ◌+◌, [], ◌∷◌, Bytes, some, true, length, arith}
use fin_bit.Prelude.Result.{ok}
use fin_bit.Crypto.Sodium.{toy_sodium, toy_sodium-IsSodium}
use fin_bit.Media.Sframe.{sframe_seal_v1, sframe_open_v1, sframe_peek_epoch}
use fin_bit.Media.Sframe.Laws as Laws

sframe_open_v1-sframe_seal_v1_example :
    (sealed : Bytes) × (sframe_seal_v1 toy_sodium true (1 ∷ []) 4 700 (8 ∷ 9 ∷ []) ≡ ok sealed)
    × (sframe_open_v1 toy_sodium true (1 ∷ []) sealed ≡ ok (some (8 ∷ 9 ∷ [])))
    × (sframe_peek_epoch sealed ≡ some 4)
    × (length sealed ≡ 12 + 2 + 16)
sframe_open_v1-sframe_seal_v1_example =
    Laws.sframe_open_v1-sframe_seal_v1 toy_sodium toy_sodium-IsSodium (1 ∷ []) (8 ∷ 9 ∷ []) 4 700
      (omega arith) (omega arith)
