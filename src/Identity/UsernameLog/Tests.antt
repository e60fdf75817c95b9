-- ===== src/Identity/UsernameLog/Tests.antt =====
-- A few claims of a name.
use fin_bit.Prelude.{
  ℕ, ◌≡◌, ◌∙◌, ◌⊎◌, refl, sym, ap, List, [], ◌∷◌, ◌++◌, get_or, Bool, true, Bytes, replicate, arith,
  inl, inr, nat_eq, list_eq,
}
use fin_bit.Identity.UsernameLog.{
  Claim, canonical_magic, canonical_signing_bytes, is_valid_username, resolve, check_claim,
  verify_claim_signature,
}
use fin_bit.Identity.UsernameLog.Signing as Signing
use fin_bit.Identity.UsernameLog.Replicas.{Offer, Offered}
use fin_bit.Identity.UsernameLog.Convergence as Convergence
use fin_bit.Identity.UsernameLog.Convergence.{log_of}

-- A signature scheme that takes every signature.
abbrev trusting : Bytes → Bytes → Bytes → Bool
trusting signature message pubkey = true

abbrev claim : ℕ → ℕ → Claim
claim key time = record {
  username = b'b' ∷ b'o' ∷ b'b' ∷ [];
  pubkey = replicate 32 key;
  timestamp_ms = time;
  nonce = replicate 16 0;
  signature = replicate 64 time;
}

abbrev offer : ℕ → ℕ → Offer
offer key time = record { clock = 1000; now_ms = 0; claim = claim key time }

abbrev signed_bytes : Bytes
signed_bytes =
    canonical_magic
    ++ (0 ∷ 1 ∷ 97 ∷ 32 ∷ (replicate 32 5 ++ (0 ∷ 0 ∷ 0 ∷ 0 ∷ 0 ∷ 0 ∷ 0 ∷ 9 ∷ 16 ∷ replicate 16 6)))

canonical_signing_bytes-injective_example :
    (◌≡◌ {A = Bytes} (97 ∷ []) (97 ∷ []))
    × (◌≡◌ {A = Bytes} (replicate 32 5) (replicate 32 5))
    × (◌≡◌ {A = ℕ} 9 9)
    × (◌≡◌ {A = Bytes} (replicate 16 6) (replicate 16 6))
unfolding canonical_signing_bytes
canonical_signing_bytes-injective_example =
    Signing.canonical_signing_bytes-injective (97 ∷ []) (97 ∷ []) (replicate 32 5) (replicate 32 5)
      9 9 (replicate 16 6) (replicate 16 6) signed_bytes (omega arith) (omega arith) (omega arith)
      (omega arith) refl refl

abbrev two : List Offer
two = offer 1 30 ∷ offer 2 20 ∷ []

abbrev swapped : List Offer
swapped = offer 2 20 ∷ offer 1 30 ∷ offer 2 20 ∷ []

one_of_two : (c : Claim) → Offered trusting c two → (claim 1 30 ≡ c) ⊎ (claim 2 20 ≡ c)
one_of_two c (inl e) = inl e
one_of_two c (inr (inl e)) = inr e
one_of_two c (inr (inr m)) = absurd m

first_byte : Claim → ℕ
first_byte c = get_or c.pubkey 0 0

one_each :
    (c d : Claim)
    → (claim 1 30 ≡ c) ⊎ (claim 2 20 ≡ c)
    → (claim 1 30 ≡ d) ⊎ (claim 2 20 ≡ d)
    → c.timestamp_ms ≡ d.timestamp_ms
    → c ≡ d
one_each c d (inl e) (inl e') h = sym e ∙ e'
one_each c d (inr e) (inr e') h = sym e ∙ e'
one_each c d (inl e) (inr e') h =
    absurd (
      omega (arith, ap (λ (k : Claim). k.timestamp_ms) e, ap (λ (k : Claim). k.timestamp_ms) e', h))
one_each c d (inr e) (inl e') h =
    absurd (
      omega (arith, ap (λ (k : Claim). k.timestamp_ms) e, ap (λ (k : Claim). k.timestamp_ms) e', h))

time_of_key :
    (c d : Claim)
    → (claim 1 30 ≡ c) ⊎ (claim 2 20 ≡ c)
    → (claim 1 30 ≡ d) ⊎ (claim 2 20 ≡ d)
    → first_byte c ≡ first_byte d
    → c.timestamp_ms ≡ d.timestamp_ms
unfolding first_byte
time_of_key c d (inl e) (inl e') h = ap (λ (k : Claim). k.timestamp_ms) (sym e ∙ e')
time_of_key c d (inr e) (inr e') h = ap (λ (k : Claim). k.timestamp_ms) (sym e ∙ e')
time_of_key c d (inl e) (inr e') h = absurd (omega (arith, ap first_byte e, ap first_byte e', h))
time_of_key c d (inr e) (inl e') h = absurd (omega (arith, ap first_byte e, ap first_byte e', h))

resolve-agree_example :
    resolve (b'b' ∷ b'o' ∷ b'b' ∷ []) (log_of trusting two)
    ≡ resolve (b'b' ∷ b'o' ∷ b'b' ∷ []) (log_of trusting swapped)
unfolding check_claim is_valid_username verify_claim_signature canonical_signing_bytes first_byte
resolve-agree_example =
    Convergence.resolve-agree trusting two swapped (b'b' ∷ b'o' ∷ b'b' ∷ []) (refl, (refl, tt))
      (refl, (refl, (refl, tt)))
      (λ c m. elim (one_of_two c m) [ inl e ↦ inr (inl e) | inr e ↦ inl e ])
      (λ c m. elim m [
        | inl e ↦ inr (inl e)
        | inr m' ↦ elim m' [ inl e ↦ inl e | inr m'' ↦ inr m'' ]
      ])
      (λ c d m m' name key.
        one_each c d (one_of_two c m) (one_of_two d m') (
          time_of_key c d (one_of_two c m) (one_of_two d m')
            (ap (λ (k : Bytes). get_or k 0 0) key)))
      (λ c d m m' name time sig.
        ap (λ (k : Claim). k.pubkey) (one_each c d (one_of_two c m) (one_of_two d m') time))
