-- ===== src/Crypto/Shamir/Interpolation.antt =====
-- Lagrange's interpolation at 0 in the form of `combine`: for each point the products over the others.
use mathlib.Core.Path.{fun_ext}
use fin_bit.Prelude.{◌≤◌, ◌≡◌, refl, sym, ap, ◌∙◌, ◌≢◌, List, [], ◌∷◌, ◌++◌, length, arith}
use fin_bit.Crypto.Shamir.Algebra.{
  Each, Field, IsDistinct, poly, products, mul_left_comm, sum_zero, sum_none, unit_mul,
}
use fin_bit.Crypto.Shamir.Lagrange.{difference, difference-mul, difference-poly, weight}

module _ {F : Type 0} (field : Field F) where
  infixl 6 ◌⊕◌
  infixl 7 ◌⊗◌
  abbrev ◌⊕◌ : F → F → F
  a ⊕ b = field.add a b

  abbrev ◌⊗◌ : F → F → F
  a ⊗ b = field.mul a b

  unfoldable pub product : List F → F
  product [] = field.unit
  product (x ∷ xs) = x ⊗ product xs

  -- The sum over the points `rest`, which come after the points `past`.
  unfoldable pub terms : (F → F) → List F → List F → F
  unfolding product
  terms f past [] = field.nought
  terms f past (a ∷ rest) =
      (f a
        ⊗ ((product past ⊗ product rest) ⊗ field.inv (weight field a past ⊗ weight field a rest)))
      ⊕ terms f (past ++ a ∷ []) rest

  product-snoc : (xs : List F) (a : F) → product (xs ++ a ∷ []) ≡ product xs ⊗ a
  unfolding product
  product-snoc [] a = field.mul_comm a field.unit
  product-snoc (x ∷ xs) a =
      ap (λ z. x ⊗ z) (product-snoc xs a) ∙ sym (field.mul_assoc x (product xs) a)

  weight-snoc :
      (x : F) (ys : List F) (a : F) → weight field x (ys ++ a ∷ []) ≡ weight field x ys ⊗ (x ⊕ a)
  unfolding weight
  weight-snoc x [] a = field.mul_comm (x ⊕ a) field.unit
  weight-snoc x (y ∷ ys) a =
      ap (λ z. (x ⊕ y) ⊗ z) (weight-snoc x ys a)
      ∙ sym (field.mul_assoc (x ⊕ y) (weight field x ys) (x ⊕ a))

  inv-cancel : (a z : F) → a ≢ field.nought → field.inv a ⊗ (a ⊗ z) ≡ z
  inv-cancel a z h =
      sym (field.mul_assoc (field.inv a) a z)
      ∙ ap (λ p. p ⊗ z) (field.mul_comm (field.inv a) a ∙ field.mul-inv a h)
      ∙ field.mul_unit z

  -- What is summed by `difference`, if `all` is the product of all points.
  abbrev scaled : (F → F) → List F → F → F → F
  scaled f past all x = f x ⊗ ((field.inv x ⊗ all) ⊗ field.inv (weight field x past))

  scaled-snoc :
      (f : F → F) (past : List F) (all a x : F)
      → scaled f (past ++ a ∷ []) all x ≡ scaled f past all x ⊗ field.inv (x ⊕ a)
  scaled-snoc f past all a x =
      rw (weight-snoc x past a, field.inv-mul (weight field x past) (x ⊕ a)) (simp products)

  head_term :
      (f : F → F) (past rest : List F) (a : F)
      → a ≢ field.nought
      → f a
          ⊗ ((product past ⊗ product rest) ⊗ field.inv (weight field a past ⊗ weight field a rest))
        ≡ scaled f past (product past ⊗ (a ⊗ product rest)) a ⊗ field.inv (weight field a rest)
  head_term f past rest a h =
      let same : field.inv a ⊗ (product past ⊗ (a ⊗ product rest)) ≡ product past ⊗ product rest =
        ap (λ z. field.inv a ⊗ z) (mul_left_comm field (product past) a (product rest))
        ∙ inv-cancel a (product past ⊗ product rest) h in
      rw (same, field.inv-mul (weight field a past) (weight field a rest)) (simp products)

  terms-difference :
      (f : F → F) (past rest : List F)
      → Each (λ x. x ≢ field.nought) rest
      → terms f past rest ≡ difference field (scaled f past (product past ⊗ product rest)) rest
  unfolding terms difference product
  terms-difference f past [] h = refl
  terms-difference f past (a ∷ rest) (ha, h) =
      let all : product (past ++ a ∷ []) ⊗ product rest ≡ product past ⊗ (a ⊗ product rest) =
        rw (product-snoc past a) (field.mul_assoc (product past) a (product rest)) in
      let tail =
        terms-difference f (past ++ a ∷ []) rest h
        ∙ ap (λ g. difference field g rest)
            (fun_ext (λ x.
              ap (λ w. scaled f (past ++ a ∷ []) w x) all
              ∙ scaled-snoc f past (product past ⊗ (a ⊗ product rest)) a x)) in
      rw (head_term f past rest a ha, tail) refl

  weight_zero : (xs : List F) → weight field field.nought xs ≡ product xs
  unfolding weight product
  weight_zero [] = refl
  weight_zero (x ∷ xs) = rw (sum_zero field x, weight_zero xs) refl

  product_ne : (xs : List F) → Each (λ x. x ≢ field.nought) xs → product xs ≢ field.nought
  unfolding product
  product_ne [] h e = field.unit_ne e
  product_ne (x ∷ xs) (hx, h) e = product_ne xs h (
      sym (inv-cancel x (product xs) hx)
      ∙ ap (λ z. field.inv x ⊗ z) e
      ∙ field.mul_comm (field.inv x) field.nought
      ∙ field.mul_nought (field.inv x))

  inv_unit : field.inv field.unit ≡ field.unit
  inv_unit = sym (field.mul_unit (field.inv field.unit)) ∙ field.mul-inv field.unit field.unit_ne

  scaled_nil : (f : F → F) (w x : F) → scaled f [] (product [] ⊗ w) x ≡ w ⊗ (f x ⊗ field.inv x)
  unfolding product weight
  scaled_nil f w x =
      rw (inv_unit, field.mul_unit w, unit_mul field (field.inv x ⊗ w)) (simp products)

  whole : (w p : F) → w ≢ field.nought → w ⊗ (p ⊗ field.inv w) ≡ p
  whole w p h =
      mul_left_comm field w p (field.inv w) ∙ ap (λ z. p ⊗ z) (field.mul-inv w h) ∙ unit_mul field p

  -- The interpolated value at 0 is the polynomial's, if there are as many points as coefficients.
  pub terms-poly :
      (cs xs : List F)
      → length cs ≤ length xs
      → IsDistinct xs
      → Each (λ x. x ≢ field.nought) xs
      → terms (poly field cs) [] xs ≡ poly field cs field.nought
  unfolding difference weight
  terms-poly cs xs h d nonzero =
      let p = poly field cs in
      let w = product xs in
      let quotients = difference field (λ x. p x ⊗ field.inv x) xs in
      let apart : p field.nought ⊗ field.inv w ≡ quotients =
        ap (λ z. p field.nought ⊗ field.inv z) (sym (weight_zero xs))
        ∙ sum_none field (p field.nought ⊗ field.inv (weight field field.nought xs))
            (difference field (λ x. p x ⊗ field.inv (x ⊕ field.nought)) xs)
            (difference-poly field cs (field.nought ∷ xs) (omega arith) (nonzero, d))
        ∙ ap (λ g. difference field g xs)
            (fun_ext (λ x. ap (λ z. p x ⊗ field.inv z) (field.add_nought x))) in
      terms-difference p [] xs nonzero
      ∙ ap (λ g. difference field g xs) (fun_ext (λ x. scaled_nil p w x))
      ∙ difference-mul field w (λ x. p x ⊗ field.inv x) xs
      ∙ ap (λ z. w ⊗ z) (sym apart)
      ∙ whole w (p field.nought) (product_ne xs nonzero)
