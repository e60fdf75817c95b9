-- ===== src/Net/WebSocket/Masking.antt =====
-- Masking a payload twice gives it back.
use fin_bit.Prelude.{
  ◌≡◌, refl, ap, [], ◌∷◌, Bytes, IsBytes, byte_xor_twice, byte_xor_zero, length, arith,
}
use fin_bit.Net.WebSocket.{Mask, apply_mask}

abbrev turned : Mask → Mask
turned m = record { b0 = m.b1; b1 = m.b2; b2 = m.b3; b3 = m.b0 }

pub apply_mask_twice : (m : Mask) (xs : Bytes) → IsBytes xs → apply_mask m (apply_mask m xs) ≡ xs
unfolding apply_mask
apply_mask_twice m [] h = refl
apply_mask_twice m (x ∷ xs) h =
    rw (byte_xor_twice x m.b0 h.0) (ap (λ t. x ∷ t) (apply_mask_twice (turned m) xs h.1))

abbrev pub no_mask : Mask
no_mask = record { b0 = 0; b1 = 0; b2 = 0; b3 = 0 }

pub apply_mask-no_mask : (xs : Bytes) → IsBytes xs → apply_mask no_mask xs ≡ xs
unfolding apply_mask
apply_mask-no_mask [] h = refl
apply_mask-no_mask (x ∷ xs) h =
    rw (byte_xor_zero x h.0) (ap (λ t. x ∷ t) (apply_mask-no_mask xs h.1))

pub length-apply_mask : (m : Mask) (xs : Bytes) → length (apply_mask m xs) ≡ length xs
unfolding apply_mask
length-apply_mask m [] = refl
length-apply_mask m (x ∷ xs) = omega (arith, length-apply_mask (turned m) xs)
