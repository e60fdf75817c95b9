-- ===== src/Crypto/Shamir/Lagrange.antt =====
-- Divided differences and Lagrange's interpolation at 0, in a field in which x + x is 0.
use mathlib.Core.Path.{fun_ext}
use fin_bit.Crypto.Shamir.Algebra.{
  Each, Field, IsDistinct, poly, products, sums, add-mul, add_left_comm, sum_assoc, product_comm,
  sum_zero, sum_ne, mul-cancel,
}
use fin_bit.Prelude.{◌<◌, ◌≡◌, refl, sym, ap, ◌∙◌, ◌≢◌, List, [], ◌∷◌, length, arith}

module _ {F : Type 0} (field : Field F) where
  infixl 6 ◌⊕◌
  infixl 7 ◌⊗◌
  abbrev ◌⊕◌ : F → F → F
  a ⊕ b = field.add a b

  abbrev ◌⊗◌ : F → F → F
  a ⊗ b = field.mul a b

  -- The product of the distances of x from the points.
  unfoldable pub weight : F → List F → F
  weight x [] = field.unit
  weight x (y ∷ ys) = (x ⊕ y) ⊗ weight x ys

  -- The divided difference of f at the points.
  unfoldable pub difference : (F → F) → List F → F
  unfolding weight
  difference f [] = field.nought
  difference f (a ∷ xs) =
      (f a ⊗ field.inv (weight a xs)) ⊕ difference (λ x. f x ⊗ field.inv (x ⊕ a)) xs

  difference_cong :
      {P : F → Type 0} (f g : F → F) (xs : List F)
      → Each P xs
      → ((x : F) → P x → f x ≡ g x)
      → difference f xs ≡ difference g xs
  unfolding difference
  difference_cong f g [] each h = refl
  difference_cong f g (a ∷ xs) each h = rw (h a each.0) (
      ap (λ z. (g a ⊗ field.inv (weight a xs)) ⊕ z)
        (difference_cong (λ x. f x ⊗ field.inv (x ⊕ a)) (λ x. g x ⊗ field.inv (x ⊕ a)) xs each.1
          (λ x p. ap (λ z. z ⊗ field.inv (x ⊕ a)) (h x p))))

  difference_ext :
      (f g : F → F) (xs : List F) → ((x : F) → f x ≡ g x) → difference f xs ≡ difference g xs
  difference_ext f g xs h = ap (λ k. difference k xs) (fun_ext h)

  difference-add :
      (f g : F → F) (xs : List F)
      → difference (λ x. f x ⊕ g x) xs ≡ difference f xs ⊕ difference g xs
  unfolding difference
  difference-add f g [] = sym (field.add_nought field.nought)
  difference-add f g (a ∷ xs) =
      let f' = λ (x : F). f x ⊗ field.inv (x ⊕ a) in
      let g' = λ (x : F). g x ⊗ field.inv (x ⊕ a) in
      let tail =
        difference_ext (λ x. (f x ⊕ g x) ⊗ field.inv (x ⊕ a)) (λ x. f' x ⊕ g' x) xs
          (λ x. add-mul field (f x) (g x) (field.inv (x ⊕ a)))
        ∙ difference-add f' g' xs in
      rw (tail, add-mul field (f a) (g a) (field.inv (weight a xs))) (simp sums)

  pub difference-mul :
      (c : F) (f : F → F) (xs : List F) → difference (λ x. c ⊗ f x) xs ≡ c ⊗ difference f xs
  unfolding difference
  difference-mul c f [] = sym (field.mul_comm c field.nought ∙ field.mul_nought c)
  difference-mul c f (a ∷ xs) =
      let tail =
        difference_ext (λ x. (c ⊗ f x) ⊗ field.inv (x ⊕ a)) (λ x. c ⊗ (f x ⊗ field.inv (x ⊕ a))) xs
          (λ x. field.mul_assoc c (f x) (field.inv (x ⊕ a)))
        ∙ difference-mul c (λ x. f x ⊗ field.inv (x ⊕ a)) xs in
      rw (tail, field.mul_assoc c (f a) (field.inv (weight a xs)))
        (sym (
          field.mul-add c (f a ⊗ field.inv (weight a xs))
            (difference (λ x. f x ⊗ field.inv (x ⊕ a)) xs)))

  -- A factor that is zero at the first point takes the point away.
  difference_times :
      (a : F) (h : F → F) (xs : List F)
      → Each (λ y. y ≢ a) xs
      → difference (λ x. (x ⊕ a) ⊗ h x) (a ∷ xs) ≡ difference h xs
  unfolding difference
  difference_times a h xs apart =
      let zero_term : ((a ⊕ a) ⊗ h a) ⊗ field.inv (weight a xs) ≡ field.nought =
        rw (field.add_self a, field.mul_nought (h a))
          (field.mul_nought (field.inv (weight a xs))) in
      rw zero_term (
        sum_zero field (difference (λ x. ((x ⊕ a) ⊗ h x) ⊗ field.inv (x ⊕ a)) xs)
        ∙ difference_cong (λ x. ((x ⊕ a) ⊗ h x) ⊗ field.inv (x ⊕ a)) h xs apart
            (λ x ne. mul-cancel field (x ⊕ a) (h x) (sum_ne field x a ne)))

  difference_swap :
      (f : F → F) (a b : F) (xs : List F) → difference f (a ∷ b ∷ xs) ≡ difference f (b ∷ a ∷ xs)
  unfolding difference weight
  difference_swap f a b xs =
      let u = field.inv (weight a xs) in
      let v = field.inv (weight b xs) in
      let tail =
        difference_ext (λ x. (f x ⊗ field.inv (x ⊕ a)) ⊗ field.inv (x ⊕ b))
          (λ x. (f x ⊗ field.inv (x ⊕ b)) ⊗ field.inv (x ⊕ a)) xs (λ x. simp products) in
      rw (tail, field.inv-mul (a ⊕ b) (weight a xs), field.inv-mul (b ⊕ a) (weight b xs))
        (simp (sums, products))

  product_none : (z d : F) → z ≢ field.nought → z ⊗ d ≡ field.nought → d ≡ field.nought
  product_none z d nonzero e =
      sym (mul-cancel field z d nonzero)
      ∙ ap (λ p. p ⊗ field.inv z) e
      ∙ field.mul_nought (field.inv z)

  difference_one_point : (a : F) → difference (λ x. field.unit) (a ∷ []) ≡ field.unit
  unfolding difference weight
  difference_one_point a =
      field.add_nought (field.unit ⊗ field.inv field.unit) ∙ field.mul-inv field.unit field.unit_ne

  unit_between :
      (a b x : F) → (a ⊕ b) ⊗ field.unit ≡ ((x ⊕ a) ⊗ field.unit) ⊕ ((x ⊕ b) ⊗ field.unit)
  unit_between a b x =
      let split : (x ⊕ a) ⊕ (x ⊕ b) ≡ a ⊕ b =
        sum_assoc field x a (x ⊕ b)
        ∙ ap (λ z. x ⊕ z) (add_left_comm field a x b)
        ∙ sym (sum_assoc field x x (a ⊕ b))
        ∙ rw (field.add_self x) (sum_zero field (a ⊕ b)) in
      ap (λ z. z ⊗ field.unit) (sym split) ∙ add-mul field (x ⊕ a) (x ⊕ b) field.unit

  -- By the values at the points without the first and without the second.
  difference_step :
      (a b : F) (xs : List F)
      → IsDistinct (a ∷ b ∷ xs)
      → difference (λ x. field.unit) (b ∷ xs) ≡ difference (λ x. field.unit) (a ∷ xs)
      → difference (λ x. field.unit) (a ∷ b ∷ xs) ≡ field.nought
  difference_step a b xs (a_xs, (b_xs, d)) same =
      let one = λ (x : F). field.unit in
      product_none (a ⊕ b) (difference one (a ∷ b ∷ xs)) (sum_ne field a b (λ e. a_xs.0 (sym e))) (
        sym (difference-mul (a ⊕ b) one (a ∷ b ∷ xs))
        ∙ difference_ext (λ x. (a ⊕ b) ⊗ field.unit)
            (λ x. ((x ⊕ a) ⊗ field.unit) ⊕ ((x ⊕ b) ⊗ field.unit)) (a ∷ b ∷ xs) (unit_between a b)
        ∙ difference-add (λ x. (x ⊕ a) ⊗ field.unit) (λ x. (x ⊕ b) ⊗ field.unit) (a ∷ b ∷ xs)
        ∙ rw
            (
              difference_times a one (b ∷ xs) a_xs,
              difference_swap (λ x. (x ⊕ b) ⊗ field.unit) a b xs,
              difference_times b one (a ∷ xs) ((λ e. a_xs.0 (sym e)), b_xs),
              same,
            )
            (field.add_self (difference one (a ∷ xs))))

  -- A constant has no difference at two points or more.
  difference_constant :
      (a b : F) (xs : List F)
      → IsDistinct (a ∷ b ∷ xs)
      → difference (λ x. field.unit) (a ∷ b ∷ xs) ≡ field.nought
  difference_constant a b [] d =
      difference_step a b [] d (difference_one_point b ∙ sym (difference_one_point a))
  difference_constant a b (c ∷ xs) (a_xs, (b_xs, d)) =
      difference_step a b (c ∷ xs) (a_xs, (b_xs, d))
        (difference_constant b c xs (b_xs, d) ∙ sym (difference_constant a c xs (a_xs.1, d)))

  difference_none : (xs : List F) → difference (λ x. field.nought) xs ≡ field.nought
  difference_none xs =
      difference_ext (λ x. field.nought) (λ x. field.nought ⊗ field.nought) xs
        (λ x. sym (field.mul_nought field.nought))
      ∙ difference-mul field.nought (λ x. field.nought) xs
      ∙ field.mul_nought (difference (λ x. field.nought) xs)

  poly_shift : (a x p : F) → x ⊗ p ≡ ((x ⊕ a) ⊗ p) ⊕ (a ⊗ p)
  poly_shift a x p =
      let back : (x ⊕ a) ⊕ a ≡ x =
        sum_assoc field x a a ∙ ap (λ z. x ⊕ z) (field.add_self a) ∙ field.add_nought x in
      ap (λ z. z ⊗ p) (sym back) ∙ add-mul field (x ⊕ a) a p

  -- A polynomial has no difference at more points than it has coefficients.
  pub difference-poly :
      (cs xs : List F)
      → length cs < length xs
      → IsDistinct xs
      → difference (poly field cs) xs ≡ field.nought
  unfolding poly
  difference-poly cs [] h d = absurd (omega arith)
  difference-poly [] (a ∷ xs) h d = difference_none (a ∷ xs)
  difference-poly (c ∷ cs) (a ∷ []) h d = absurd (omega arith)
  difference-poly (c ∷ cs) (a ∷ b ∷ xs) h (a_xs, d) =
      let points = a ∷ b ∷ xs in
      let p = poly field cs in
      let constant : difference (λ x. c) points ≡ field.nought =
        difference_ext (λ x. c) (λ x. c ⊗ field.unit) points
          (λ x. sym (product_comm field c field.unit ∙ field.mul_unit c))
        ∙ difference-mul c (λ x. field.unit) points
        ∙ rw (difference_constant a b xs (a_xs, d))
            (product_comm field c field.nought ∙ field.mul_nought c) in
      let shifted : difference (λ x. x ⊗ p x) points ≡ field.nought =
        difference_ext (λ x. x ⊗ p x) (λ x. ((x ⊕ a) ⊗ p x) ⊕ (a ⊗ p x)) points
          (λ x. poly_shift a x (p x))
        ∙ difference-add (λ x. (x ⊕ a) ⊗ p x) (λ x. a ⊗ p x) points
        ∙ rw
            (
              difference_times a p (b ∷ xs) a_xs,
              difference-mul a p points,
              difference-poly cs (b ∷ xs) (omega arith) d,
              difference-poly cs points (omega arith) (a_xs, d),
            )
            (sum_zero field (a ⊗ field.nought)
              ∙ product_comm field a field.nought
              ∙ field.mul_nought a) in
      difference-add (λ x. c) (λ x. x ⊗ p x) points
      ∙ rw (constant, shifted) (field.add_nought field.nought)
