-- ===== src/Crypto/Padding/Tests.antt =====
-- Runs of the padding code, and the theorems at concrete inputs.
use fin_bit.Prelude.{◌≡◌, refl, ◌↔◌, List, [], ◌∷◌, ℕ}
use fin_bit.Prelude.Result.{ok, err}
use fin_bit.Crypto.Padding.{no_marker, bad_marker, pad_to_bucket, strip_padding}
use fin_bit.Crypto.Padding.Laws.{padded_with, Pads, pad_to_bucket_correct, strip_padding_iff}

abbrev ladder : List ℕ
ladder = 2 ∷ 4 ∷ 8 ∷ []

pads_to_second : pad_to_bucket (1 ∷ 0 ∷ []) ladder ≡ ok (1 ∷ 0 ∷ 0x80 ∷ 0 ∷ [])
unfolding pad_to_bucket
pads_to_second = refl

strips_all_zero : strip_padding (0 ∷ 0 ∷ []) ≡ err no_marker
unfolding strip_padding
strips_all_zero = refl

strips_unmarked : strip_padding (0x80 ∷ 7 ∷ 0 ∷ []) ≡ err bad_marker
unfolding strip_padding
strips_unmarked = refl

pad_to_bucket_correct_example : Pads (1 ∷ 0 ∷ []) ladder (pad_to_bucket (1 ∷ 0 ∷ []) ladder)
pad_to_bucket_correct_example = pad_to_bucket_correct (1 ∷ 0 ∷ []) 2 (4 ∷ 8 ∷ [])

strip_padding_iff_example :
    (strip_padding (1 ∷ 0 ∷ 0x80 ∷ 0 ∷ []) ≡ ok (1 ∷ 0 ∷ []))
    ↔ ((k : ℕ) × (1 ∷ 0 ∷ 0x80 ∷ 0 ∷ [] ≡ padded_with (1 ∷ 0 ∷ []) k))
strip_padding_iff_example = strip_padding_iff (1 ∷ 0 ∷ 0x80 ∷ 0 ∷ []) (1 ∷ 0 ∷ [])
