-- ===== src/Crypto/Shamir/Algebra.antt =====
-- The algebra of the secret sharing: fields in which x + x is 0, polynomials over them, and lists of
-- elements that are all different.
use fin_bit.Prelude.{◌≡◌, refl, sym, ap, ◌∙◌, ◌≢◌, List, [], ◌∷◌, ◌++◌}

pub record Field (F : Type 0) : Type 0 where
  pub add : F → F → F
  pub mul : F → F → F
  pub nought : F
  pub unit : F
  pub inv : F → F
  pub add_assoc : (a b c : F) → add (add a b) c ≡ add a (add b c)
  pub add_comm : (a b : F) → add a b ≡ add b a
  pub add_nought : (a : F) → add a nought ≡ a
  pub add_self : (a : F) → add a a ≡ nought
  pub mul_assoc : (a b c : F) → mul (mul a b) c ≡ mul a (mul b c)
  pub mul_comm : (a b : F) → mul a b ≡ mul b a
  pub mul_unit : (a : F) → mul unit a ≡ a
  pub mul_nought : (a : F) → mul nought a ≡ nought
  pub mul-add : (a b c : F) → mul a (add b c) ≡ add (mul a b) (mul a c)
  pub unit_ne : unit ≢ nought
  pub mul-inv : (a : F) → a ≢ nought → mul a (inv a) ≡ unit
  pub inv-mul : (a b : F) → inv (mul a b) ≡ mul (inv a) (inv b)

module _ {F : Type 0} where
  abbrev pub Each : (F → Type 0) → List F → Type 0
  Each P [] = Unit
  Each P (x ∷ xs) = P x × Each P xs

  abbrev pub IsDistinct : List F → Type 0
  IsDistinct [] = Unit
  IsDistinct (x ∷ xs) = Each (λ y. y ≢ x) xs × IsDistinct xs

module _ {F : Type 0} {P Q : F → Type 0} where
  pub Each-imp : (xs : List F) → ((x : F) → P x → Q x) → Each P xs → Each Q xs
  Each-imp [] f h = tt
  Each-imp (x ∷ xs) f (hx, h) = (f x hx, Each-imp xs f h)

pub Each-snoc :
    {F : Type 0} (P : F → Type 0) (xs : List F) (x : F) → Each P xs → P x → Each P (xs ++ x ∷ [])
Each-snoc P [] x h hx = (hx, tt)
Each-snoc P (y ∷ xs) x (hy, h) hx = (hy, Each-snoc P xs x h hx)

module _ {F : Type 0} (field : Field F) where
  infixl 6 ◌⊕◌
  infixl 7 ◌⊗◌
  abbrev ◌⊕◌ : F → F → F
  a ⊕ b = field.add a b

  abbrev ◌⊗◌ : F → F → F
  a ⊗ b = field.mul a b

  -- The polynomial with these coefficients, the lowest first.
  unfoldable pub poly : List F → F → F
  poly [] x = field.nought
  poly (c ∷ cs) x = c ⊕ (x ⊗ poly cs x)

  pub mul_left_comm : (a b c : F) → a ⊗ (b ⊗ c) ≡ b ⊗ (a ⊗ c)
  mul_left_comm a b c =
      sym (field.mul_assoc a b c) ∙ ap (λ z. z ⊗ c) (field.mul_comm a b) ∙ field.mul_assoc b a c

  pub add_left_comm : (a b c : F) → a ⊕ (b ⊕ c) ≡ b ⊕ (a ⊕ c)
  add_left_comm a b c =
      sym (field.add_assoc a b c) ∙ ap (λ z. z ⊕ c) (field.add_comm a b) ∙ field.add_assoc b a c

  pub sum_assoc : (a b c : F) → (a ⊕ b) ⊕ c ≡ a ⊕ (b ⊕ c)
  sum_assoc = field.add_assoc

  pub sum_comm : (a b : F) → a ⊕ b ≡ b ⊕ a
  sum_comm = field.add_comm

  pub product_assoc : (a b c : F) → (a ⊗ b) ⊗ c ≡ a ⊗ (b ⊗ c)
  product_assoc = field.mul_assoc

  pub product_comm : (a b : F) → a ⊗ b ≡ b ⊗ a
  product_comm = field.mul_comm

  pub ruleset products = (product_assoc, product_comm, mul_left_comm)

  pub ruleset sums = (sum_assoc, sum_comm, add_left_comm)

  pub add-mul : (a b c : F) → (a ⊕ b) ⊗ c ≡ (a ⊗ c) ⊕ (b ⊗ c)
  add-mul a b c =
      field.mul_comm (a ⊕ b) c
      ∙ field.mul-add c a b
      ∙ rw (field.mul_comm c a, field.mul_comm c b) refl

  pub sum_zero : (a : F) → field.nought ⊕ a ≡ a
  sum_zero a = sum_comm field.nought a ∙ field.add_nought a

  pub sum_ne : (a b : F) → a ≢ b → a ⊕ b ≢ field.nought
  sum_ne a b h e = h (
      sym (field.add_nought a)
      ∙ ap (λ z. a ⊕ z) (sym (field.add_self b))
      ∙ sym (sum_assoc a b b)
      ∙ ap (λ z. z ⊕ b) e
      ∙ sum_zero b)

  pub mul-cancel : (z h : F) → z ≢ field.nought → (z ⊗ h) ⊗ field.inv z ≡ h
  mul-cancel z h nonzero =
      ap (λ p. p ⊗ field.inv z) (product_comm z h)
      ∙ product_assoc h z (field.inv z)
      ∙ ap (λ p. h ⊗ p) (field.mul-inv z nonzero)
      ∙ product_comm h field.unit
      ∙ field.mul_unit h

  pub mul_nought_right : (x : F) → x ⊗ field.nought ≡ field.nought
  mul_nought_right x = field.mul_comm x field.nought ∙ field.mul_nought x

  pub unit_mul : (a : F) → a ⊗ field.unit ≡ a
  unit_mul a = field.mul_comm a field.unit ∙ field.mul_unit a

  pub sum_none : (a b : F) → a ⊕ b ≡ field.nought → a ≡ b
  sum_none a b e =
      sym (field.add_nought a)
      ∙ ap (λ z. a ⊕ z) (sym (field.add_self b))
      ∙ sym (field.add_assoc a b b)
      ∙ ap (λ z. z ⊕ b) e
      ∙ sum_zero b

  pub self_cancel : (a b : F) → a ⊕ (b ⊕ a) ≡ b
  self_cancel a b = add_left_comm a b a ∙ ap (λ z. b ⊕ z) (field.add_self a) ∙ field.add_nought b

  pub mul-inv_cancel : (z h : F) → z ≢ field.nought → z ⊗ (h ⊗ field.inv z) ≡ h
  mul-inv_cancel z h nonzero =
      ap (λ p. z ⊗ p) (field.mul_comm h (field.inv z))
      ∙ sym (field.mul_assoc z (field.inv z) h)
      ∙ ap (λ p. p ⊗ h) (field.mul-inv z nonzero)
      ∙ field.mul_unit h
