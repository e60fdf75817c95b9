-- ===== src/Crypto/Shamir/Splitting.antt =====
-- core/src/crypto/shamir.cpp: what the shares of `split` hold.
use fin_bit.Prelude.{
  ℕ, zero, suc, ◌+◌, ◌<◌, ◌≡◌, ap, subst, ◌∙◌, ◌≢◌, inl, inr, List, [], ◌∷◌, map, ◌||◌, Bytes,
  length, length-set, length-replicate, get_or, get_or-set, eqb, ltb, arith, Bool-cases,
}
use fin_bit.Prelude.Result.{ok}
use fin_bit.Crypto.Shamir.{Share, blank_shares, coefficients, gf_eval, put_byte, split, split_bytes}
use fin_bit.Crypto.Shamir.Algebra.{Each}

-- The bytes of a share before number b are the polynomials' values at its coordinate.
pub record IsShare (random : ℕ → ℕ → Bytes) (threshold : ℕ) (secret : Bytes) (b : ℕ) (s : Share)
    : Type 0 where
  pub is_byte : s.x < 256
  pub nonzero : s.x ≢ 0
  pub as_long : length s.y ≡ length secret
  pub value_at :
      (i : ℕ)
      → i < b
      → get_or s.y i 0 ≡ gf_eval (coefficients random threshold i (get_or secret i 0)) s.x

module _ (random : ℕ → ℕ → Bytes) (threshold : ℕ) (secret : Bytes) where
  put_byte-IsShare :
      (b : ℕ) (s : Share)
      → b < length secret
      → IsShare random threshold secret b s
      → IsShare random threshold secret
          (suc b)
          (put_byte b (coefficients random threshold b (get_or secret b 0)) s)
  unfolding put_byte
  put_byte-IsShare b s lt is_share =
      let v = gf_eval (coefficients random threshold b (get_or secret b 0)) s.x in
      record {
        is_byte = is_share.is_byte;
        nonzero = is_share.nonzero;
        as_long = length-set s.y b v ∙ is_share.as_long;
        value_at = λ i h.
            get_or-set s.y b i v 0 (omega (arith, is_share.as_long)) ∙ elim (Bool-cases (eqb b i)) [
              | inl e ↦ rw e (
                  ap (λ k. gf_eval (coefficients random threshold k (get_or secret k 0)) s.x)
                    (ground arith))
              | inr e ↦ rw e (is_share.value_at i (ground arith))
            ];
      }

  put_bytes-IsShare :
      (b : ℕ) (shares : List Share)
      → b < length secret
      → Each (IsShare random threshold secret b) shares
      → Each
          (IsShare random threshold secret (suc b))
          (map (put_byte b (coefficients random threshold b (get_or secret b 0))) shares)
  put_bytes-IsShare b [] lt h = tt
  put_bytes-IsShare b (s ∷ shares) lt (hs, h) =
      (put_byte-IsShare b s lt hs, put_bytes-IsShare b shares lt h)

  split_bytes-IsShare :
      (bytes : Bytes) (b : ℕ) (shares : List Share)
      → b + length bytes ≡ length secret
      → ((k : ℕ) → k < length bytes → get_or bytes k 0 ≡ get_or secret (b + k) 0)
      → Each (IsShare random threshold secret b) shares
      → Each
          (IsShare random threshold secret (length secret))
          (split_bytes random threshold bytes b shares)
  unfolding split_bytes
  split_bytes-IsShare [] b shares e same h =
      subst (λ k. Each (IsShare random threshold secret k) shares) (omega arith) h
  split_bytes-IsShare (byte ∷ bytes) b shares e same h =
      let here : byte ≡ get_or secret b 0 =
        same 0 (omega arith) ∙ ap (λ k. get_or secret k 0) (omega arith) in
      rw here (
        split_bytes-IsShare bytes (suc b)
          (map (put_byte b (coefficients random threshold b (get_or secret b 0))) shares)
          (omega arith)
          (λ k lt. same (suc k) (omega arith) ∙ ap (λ i. get_or secret i 0) (omega arith))
          (put_bytes-IsShare b shares (omega arith) h))

  blank_shares-IsShare :
      (i n : ℕ)
      → i + n < 256
      → Each (IsShare random threshold secret 0) (blank_shares (length secret) i n)
  unfolding blank_shares
  blank_shares-IsShare i zero h = tt
  blank_shares-IsShare i (suc n) h = (
    record {
      is_byte = omega arith;
      nonzero = λ e. omega arith;
      as_long = length-replicate (length secret) 0;
      value_at = λ k lt. absurd (omega arith);
    },
    blank_shares-IsShare (suc i) n (omega arith),
  )

  -- What a successful `split` says of its arguments and of its shares.
  pub split-IsShare :
      (total : ℕ) (shares : List Share)
      → total < 256
      → split random secret threshold total ≡ ok shares
      → (length secret ≢ 0)
        × (threshold ≢ 0)
        × Each (IsShare random threshold secret (length secret)) shares
  unfolding split
  split-IsShare total shares h e = elim (Bool-cases (eqb (length secret) 0)) [
    | inl empty ↦ absurd (ground arith)
    | inr bytes ↦ elim (Bool-cases (eqb threshold 0 || eqb total 0 || ltb total threshold)) [
      | inl bad ↦ absurd (ground arith)
      | inr good ↦
          let blank = blank_shares (length secret) 0 total in
          let same : split_bytes random threshold secret 0 blank ≡ shares = ground arith in
          (
            ground arith,
            ground arith,
            subst (Each (IsShare random threshold secret (length secret))) same (
                split_bytes-IsShare secret 0 blank (omega arith)
                  (λ k lt. ap (λ i. get_or secret i 0) (omega arith))
                  (blank_shares-IsShare 0 total (omega arith))),
          )
    ]
  ]
