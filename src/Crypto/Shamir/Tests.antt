-- ===== src/Crypto/Shamir/Tests.antt =====
-- Runs of the secret sharing, and the theorems at small inputs.
use fin_bit.Prelude.{
  List, ℕ, zero, suc, ◌+◌, ◌*◌, ◌%◌, ◌<◌, ◌≡◌, refl, [], ◌∷◌, inl, inr, Bytes, IsBytes, length,
  length-replicate, replicate, byte_xor, arith,
}
use fin_bit.Prelude.Result.{ok, err}
use fin_bit.Crypto.Shamir.{
  Share, combine, decode_share, duplicate_coordinate, encode_share, gf_mul, split, times_three,
  zero_coordinate,
}
use fin_bit.Crypto.Shamir.Algebra.{Each}
use fin_bit.Crypto.Shamir.Recovery.{In, split-combine}
use fin_bit.Crypto.Shamir.Secrecy.{split-hides}

three_times_0x80 : times_three 0x80 ≡ 0x9b
unfolding times_three
three_times_0x80 = refl

-- The example of FIPS 197.
product_of_fips : gf_mul 0x57 0x83 ≡ 0xc1
unfolding gf_mul
product_of_fips = refl

abbrev secret : Bytes
secret = 7 ∷ 200 ∷ []

abbrev noise : ℕ → ℕ → Bytes
noise b n = replicate n ((b * 77 + 5) % 256)

replicate-IsBytes : (n v : ℕ) → v < 256 → IsBytes (replicate n v)
replicate-IsBytes zero v h = tt
replicate-IsBytes (suc n) v h = (h, replicate-IsBytes n v h)

noise_draws : (b n : ℕ) → (length (noise b n) ≡ n) × IsBytes (noise b n)
noise_draws b n = (
  length-replicate n ((b * 77 + 5) % 256),
  replicate-IsBytes n ((b * 77 + 5) % 256) (omega arith),
)

abbrev first : Share
first = record { x = 1; y = 2 ∷ 154 ∷ [] }

abbrev second : Share
second = record { x = 2; y = 13 ∷ 108 ∷ [] }

abbrev third : Share
third = record { x = 3; y = 8 ∷ 62 ∷ [] }

split_secret : split noise secret 2 3 ≡ ok (first ∷ second ∷ third ∷ [])
unfolding split byte_xor
split_secret = refl

combine_one_too_few : combine (first ∷ []) ≡ ok (2 ∷ 154 ∷ [])
unfolding combine byte_xor
combine_one_too_few = refl

combine_twice_the_same : combine (first ∷ second ∷ first ∷ []) ≡ err duplicate_coordinate
unfolding combine
combine_twice_the_same = refl

decode_zero : decode_share (0 ∷ 5 ∷ []) ≡ err zero_coordinate
unfolding decode_share
decode_zero = refl

encode_first : encode_share first ≡ ok (1 ∷ 2 ∷ 154 ∷ [])
unfolding encode_share
encode_first = refl

split-combine_example : combine (third ∷ first ∷ []) ≡ ok (7 ∷ 200 ∷ [])
split-combine_example =
    split-combine noise secret 2 3 (first ∷ second ∷ third ∷ []) (third ∷ first ∷ []) noise_draws
      (omega arith, (omega arith, tt)) (omega arith) split_secret
      (inr (inr (inl refl)), (inl refl, tt)) (((λ e. omega arith), tt), (tt, tt)) (omega arith)

abbrev another : Bytes
another = 255 ∷ 0 ∷ []

split-hides_example :
    (again : ℕ → ℕ → Bytes) × ((b n : ℕ) → (length (again b n) ≡ n) × IsBytes (again b n))
    × ((others : List Share) × (split again another 2 3 ≡ ok others)
        × Each (λ s. In s others) (second ∷ []))
split-hides_example =
    split-hides noise secret another 2 3 (first ∷ second ∷ third ∷ []) (second ∷ []) noise_draws
      (omega arith, (omega arith, tt)) (omega arith, (omega arith, tt)) refl (omega arith)
      split_secret (inr (inl refl), tt) (tt, tt) (omega arith)
