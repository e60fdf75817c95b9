-- ===== src/Crypto/Shamir/Fitting.antt =====
-- A polynomial through given points, in a field in which x + x is 0.
use fin_bit.Prelude.{ℕ, zero, suc, ◌≤◌, ◌≡◌, refl, sym, ap, ◌∙◌, ◌≢◌, List, [], ◌∷◌, length, arith}
use fin_bit.Crypto.Shamir.Algebra.{
  Each, Field, IsDistinct, poly, add-mul, mul_left_comm, add_left_comm, sum_assoc, sum_ne,
  mul_nought_right, self_cancel, mul-inv_cancel,
}

module _ {F : Type 0} (field : Field F) where
  infixl 6 ◌⊕◌
  infixl 7 ◌⊗◌
  abbrev ◌⊕◌ : F → F → F
  a ⊕ b = field.add a b

  abbrev ◌⊗◌ : F → F → F
  a ⊗ b = field.mul a b

  -- The coefficients of carry + (x + a) times a polynomial.
  times_root : F → F → List F → List F
  times_root a carry [] = carry ∷ []
  times_root a carry (c ∷ cs) = (carry ⊕ (a ⊗ c)) ∷ times_root a c cs

  pub fit : (F → F) → List F → List F
  unfolding times_root
  fit f [] = []
  fit f (a ∷ xs) = times_root a (f a) (fit (λ x. (f x ⊕ f a) ⊗ field.inv (x ⊕ a)) xs)

  -- Zeros at the end, or the first n coefficients.
  unfoldable pub pad : ℕ → List F → List F
  pad zero cs = []
  pad (suc n) [] = field.nought ∷ pad n []
  pad (suc n) (c ∷ cs) = c ∷ pad n cs

  length-times_root : (a carry : F) (cs : List F) → length (times_root a carry cs) ≡ suc (length cs)
  unfolding times_root
  length-times_root a carry [] = refl
  length-times_root a carry (c ∷ cs) = ap suc (length-times_root a c cs)

  pub length-fit : (f : F → F) (xs : List F) → length (fit f xs) ≡ length xs
  unfolding fit
  length-fit f [] = refl
  length-fit f (a ∷ xs) =
      length-times_root a (f a) (fit (λ x. (f x ⊕ f a) ⊗ field.inv (x ⊕ a)) xs)
      ∙ ap suc (length-fit (λ x. (f x ⊕ f a) ⊗ field.inv (x ⊕ a)) xs)

  pub length-pad : (n : ℕ) (cs : List F) → length (pad n cs) ≡ n
  unfolding pad
  length-pad zero cs = refl
  length-pad (suc n) [] = ap suc (length-pad n [])
  length-pad (suc n) (c ∷ cs) = ap suc (length-pad n cs)

  poly-pad_nil : (n : ℕ) (x : F) → poly field (pad n []) x ≡ field.nought
  unfolding pad poly
  poly-pad_nil zero x = refl
  poly-pad_nil (suc n) x =
      rw (poly-pad_nil n x, mul_nought_right field x) (field.add_nought field.nought)

  pub poly-pad :
      (n : ℕ) (cs : List F) (x : F) → length cs ≤ n → poly field (pad n cs) x ≡ poly field cs x
  unfolding pad poly
  poly-pad zero [] x h = refl
  poly-pad zero (c ∷ cs) x h = absurd (omega arith)
  poly-pad (suc n) [] x h = poly-pad_nil (suc n) x
  poly-pad (suc n) (c ∷ cs) x h = ap (λ p. c ⊕ (x ⊗ p)) (poly-pad n cs x (omega arith))

  rearrange : (a x c p : F) → (a ⊗ c) ⊕ (x ⊗ (c ⊕ ((x ⊕ a) ⊗ p))) ≡ (x ⊕ a) ⊗ (c ⊕ (x ⊗ p))
  rearrange a x c p =
      ap (λ z. (a ⊗ c) ⊕ z) (field.mul-add x c ((x ⊕ a) ⊗ p))
      ∙ add_left_comm field (a ⊗ c) (x ⊗ c) (x ⊗ ((x ⊕ a) ⊗ p))
      ∙ sym (sum_assoc field (x ⊗ c) (a ⊗ c) (x ⊗ ((x ⊕ a) ⊗ p)))
      ∙ rw (sym (add-mul field x a c), mul_left_comm field x (x ⊕ a) p)
          (sym (field.mul-add (x ⊕ a) c (x ⊗ p)))

  poly-times_root :
      (a carry : F) (cs : List F) (x : F)
      → poly field (times_root a carry cs) x ≡ carry ⊕ ((x ⊕ a) ⊗ poly field cs x)
  unfolding times_root poly
  poly-times_root a carry [] x =
      ap (λ z. carry ⊕ z) (mul_nought_right field x ∙ sym (mul_nought_right field (x ⊕ a)))
  poly-times_root a carry (c ∷ cs) x = rw (poly-times_root a c cs x) (
      sum_assoc field carry (a ⊗ c) (x ⊗ (c ⊕ ((x ⊕ a) ⊗ poly field cs x)))
      ∙ ap (λ z. carry ⊕ z) (rearrange a x c (poly field cs x)))

  fit_rest :
      (f : F → F) (a : F) (cs xs : List F)
      → Each (λ y. y ≢ a) xs
      → Each (λ x. poly field cs x ≡ (f x ⊕ f a) ⊗ field.inv (x ⊕ a)) xs
      → Each (λ x. poly field (times_root a (f a) cs) x ≡ f x) xs
  fit_rest f a cs [] apart h = tt
  fit_rest f a cs (x ∷ xs) (ne, apart) (hx, h) = (
    poly-times_root a (f a) cs x
        ∙ ap (λ p. f a ⊕ ((x ⊕ a) ⊗ p)) hx
        ∙ ap (λ z. f a ⊕ z) (mul-inv_cancel field (x ⊕ a) (f x ⊕ f a) (sum_ne field x a ne))
        ∙ self_cancel field (f a) (f x),
    fit_rest f a cs xs apart h,
  )

  -- The polynomial has the wanted values.
  pub poly-fit :
      (f : F → F) (xs : List F) → IsDistinct xs → Each (λ x. poly field (fit f xs) x ≡ f x) xs
  unfolding fit
  poly-fit f [] d = tt
  poly-fit f (a ∷ xs) (apart, d) =
      let g = λ (x : F). (f x ⊕ f a) ⊗ field.inv (x ⊕ a) in
      (
        poly-times_root a (f a) (fit g xs) a
            ∙ ap (λ z. f a ⊕ (z ⊗ poly field (fit g xs) a)) (field.add_self a)
            ∙ ap (λ z. f a ⊕ z) (field.mul_nought (poly field (fit g xs) a))
            ∙ field.add_nought (f a),
        fit_rest f a (fit g xs) xs apart (poly-fit g xs d),
      )
