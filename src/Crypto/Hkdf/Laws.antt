-- ===== src/Crypto/Hkdf/Laws.antt =====
-- HKDF-Expand against RFC 5869.
use fin_bit.Prelude.{
  ℕ, zero, suc, ◌+◌, ◌-◌, ◌*◌, ◌%◌, ◌≤◌, ◌<◌, min, ◌≡◌, refl, sym, ap, ◌∙◌, [], ◌∷◌, ◌++◌,
  append_assoc, append-nil, false, ◌||◌, Bytes, length, length-append, length-take, take, ltb, eqb,
  arith, Bool-cases, inl, inr,
}
use fin_bit.Prelude.Result.{ok}
use fin_bit.Crypto.Sodium.{Sodium, IsSodium}
use fin_bit.Crypto.Hkdf.{hkdf_sha256_bytes, expand_blocks, hkdf_expand}

take-append : (n : ℕ) (xs ys : Bytes) → take n (xs ++ ys) ≡ take n xs ++ take (n - length xs) ys
take-append zero [] ys = refl
take-append zero (x ∷ xs) ys =
    let none_left : 0 - suc (length xs) ≡ 0 = omega arith in rw none_left refl
take-append (suc n) [] ys = let all_left : suc n - 0 ≡ suc n = omega arith in rw all_left refl
take-append (suc n) (x ∷ xs) ys =
    let one_less : suc n - suc (length xs) ≡ n - length xs = omega arith in
    rw one_less (ap (◌∷◌ x) (take-append n xs ys))

take-min : (n : ℕ) (xs : Bytes) → take (min (length xs) n) xs ≡ take n xs
take-min zero xs = let least : min (length xs) 0 ≡ 0 = omega arith in rw least refl
take-min (suc n) [] = let least : min 0 (suc n) ≡ 0 = omega arith in rw least refl
take-min (suc n) (x ∷ xs) =
    let least : min (suc (length xs)) (suc n) ≡ suc (min (length xs) n) = omega arith in
    rw least (ap (◌∷◌ x) (take-min n xs))

module _ (sodium : Sodium) where
  -- T(c + 1) | … | T(c + n) of RFC 5869, section 2.3.
  unfoldable pub rfc_blocks : ℕ → Bytes → Bytes → ℕ → Bytes → Bytes
  rfc_blocks zero prk info c t = []
  rfc_blocks (suc n) prk info c t =
      let t' = sodium.hmac prk (t ++ info ++ suc c ∷ []) in t' ++ rfc_blocks n prk info (suc c) t'

module _ (sodium : Sodium) (h : IsSodium sodium) where
  expand_blocks-rfc :
      (n : ℕ) (prk info : Bytes) (len : ℕ) (okm t : Bytes) (c : ℕ)
      → c + n ≡ 255
      → len ≤ length okm + 32 * n
      → expand_blocks sodium n prk info len okm t c
        ≡ okm ++ take (len - length okm) (rfc_blocks sodium n prk info c t)
  unfolding expand_blocks rfc_blocks
  expand_blocks-rfc zero prk info len okm t c e le =
      let full : len - length okm ≡ 0 = omega arith in rw full (sym (append-nil okm))
  expand_blocks-rfc (suc n) prk info len okm t c e le = elim (Bool-cases (ltb (length okm) len)) [
    | inr done ↦
        let full : len - length okm ≡ 0 = ground arith in
        rw (done, expand_blocks) (rw full (sym (append-nil okm)))
    | inl more ↦
        let t' : Bytes = sodium.hmac prk (t ++ info ++ suc c ∷ []) in
        let k : ℕ = len - length okm in
        let same : (c + 1) % 256 ≡ suc c = omega arith in
        let size : length t' ≡ 32 = h.length-hmac prk (t ++ info ++ suc c ∷ []) in
        let cut : take (min 32 k) t' ≡ take k t' =
          ap (λ j. take (min j k) t') (sym size) ∙ take-min k t' in
        let rest : len - length (okm ++ take (min 32 k) t') ≡ k - length t' =
          omega (arith, length-append okm (take (min 32 k) t'), length-take (min 32 k) t', size) in
        rw (more, expand_blocks)
          (rw same (
            expand_blocks-rfc n prk info len (okm ++ take (min 32 k) t') t' (suc c) (omega arith) (
              omega
                (arith, length-append okm (take (min 32 k) t'), length-take (min 32 k) t', size))
            ∙ rw rest (
                rw cut (
                  append_assoc okm (take k t')
                    (take (k - length t') (rfc_blocks sodium n prk info (suc c) t'))
                  ∙ ap (λ x. okm ++ x)
                      (sym (take-append k t' (rfc_blocks sodium n prk info (suc c) t')))))))
  ]

  expand_blocks_all :
      (n : ℕ) (prk info : Bytes) (len : ℕ)
      → n ≡ 255
      → len ≤ 32 * n
      → expand_blocks sodium n prk info len [] [] 0 ≡ take len (rfc_blocks sodium n prk info 0 [])
  expand_blocks_all n prk info len e le =
      let all_left : len - 0 ≡ len = omega arith in
      expand_blocks-rfc n prk info len [] [] 0 (omega arith) (omega arith)
      ∙ ap (λ k. take k (rfc_blocks sodium n prk info 0 [])) all_left

  length-rfc_blocks :
      (n : ℕ) (prk info : Bytes) (c : ℕ) (t : Bytes)
      → length (rfc_blocks sodium n prk info c t) ≡ 32 * n
  unfolding rfc_blocks
  length-rfc_blocks zero prk info c t = omega arith
  length-rfc_blocks (suc n) prk info c t =
      let t' : Bytes = sodium.hmac prk (t ++ info ++ suc c ∷ []) in
      omega (
        arith,
        length-append t' (rfc_blocks sodium n prk info (suc c) t'),
        h.length-hmac prk (t ++ info ++ suc c ∷ []),
        length-rfc_blocks n prk info (suc c) t',
      )

  -- A length from 1 to 255 · 32 yields that many bytes, the first ones of the blocks of RFC 5869.
  pub hkdf_expand-rfc :
      (prk info : Bytes) (okm_len : ℕ)
      → 0 < okm_len
      → okm_len ≤ 255 * 32
      → (hkdf_expand sodium prk info okm_len
          ≡ ok (take okm_len (rfc_blocks sodium 255 prk info 0 [])))
        × (length (take okm_len (rfc_blocks sodium 255 prk info 0 [])) ≡ okm_len)
  unfolding hkdf_expand
  hkdf_expand-rfc prk info okm_len pos le =
      let in_range : (eqb okm_len 0 || ltb (255 * hkdf_sha256_bytes) okm_len) ≡ false =
        ground arith in
      (
        rw (in_range, hkdf_expand)
            (ap ok (expand_blocks_all 255 prk info okm_len refl (omega arith))),
        omega (
          arith,
          length-take okm_len (rfc_blocks sodium 255 prk info 0 []),
          length-rfc_blocks 255 prk info 0 [],
        ),
      )
