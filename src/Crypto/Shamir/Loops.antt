-- ===== src/Crypto/Shamir/Loops.antt =====
-- core/src/crypto/shamir.cpp: the loops of `combine` as the sum of the interpolation.
use fin_bit.Prelude.{
  ℕ, suc, ◌+◌, ◌%◌, ◌<◌, ◌≡◌, refl, sym, ap, ◌∙◌, ◌≢◌, List, [], ◌∷◌, ◌++◌, map, true, false, eqb,
  if◌then◌else◌, length, length-append, get_or, byte_xor, byte_xor_lt, byte_xor_zero,
  byte_xor_assoc, subst, arith, append_assoc,
}
use fin_bit.Prelude.Result.{ok}
use fin_bit.Crypto.Shamir.{Share, gf_div, gf_mul, interpolate, products}
use fin_bit.Crypto.Shamir.Algebra.{Each, Each-snoc, IsDistinct, sum_ne}
use fin_bit.Crypto.Shamir.Lagrange.{weight}
use fin_bit.Crypto.Shamir.Interpolation.{product, terms}
use fin_bit.Crypto.Shamir.ByteField.{Byte, byte_field, to_byte, byte_eq}
use fin_bit.Crypto.Shamir.Product.{gf_div-mul, mul_assoc, mul_comm, mul_lt, mul_ne, mul_one}

-- The coordinates of shares.
abbrev pub point : Share → Byte
point s = to_byte s.x

abbrev pub HasByte : Share → Type 0
HasByte s = s.x < 256

abbrev pub points : List Share → List Byte
points shares = map point shares

eqb_no : (i j : ℕ) → i ≢ j → eqb i j ≡ false
eqb_no i j h = ground arith

mul_one_right : (a : ℕ) → a < 256 → gf_mul a 1 ≡ a
mul_one_right a h = mul_comm a 1 ∙ mul_one a h

mod_small : (a : ℕ) → a < 256 → a % 256 ≡ a
mod_small a h = omega arith

-- The loop over j passes over shares that do not have the number i.
products_past :
    (i : ℕ) (a : Byte) (shares : List Share) (j num den : ℕ)
    → num < 256
    → den < 256
    → Each HasByte shares
    → ((k : ℕ) → k < length shares → i ≢ j + k)
    → products i a.0 shares j (num, den) ≡ (
      gf_mul num (product byte_field (points shares)).0,
      gf_mul den (weight byte_field a (points shares)).0,
    )
unfolding products product weight byte_field
products_past i a [] j num den hn hd small h = rw (mul_one_right num hn, mul_one_right den hd) refl
products_past i a (s ∷ shares) j num den hn hd (hs, small) h =
    rw (eqb_no i j (λ e. h 0 (omega arith) (omega arith)), mod_small s.x hs)
      (products_past i a shares (suc j) (gf_mul num s.x) (gf_mul den (byte_xor a.0 s.x))
          (mul_lt num s.x) (mul_lt den (byte_xor a.0 s.x)) small
          (λ k lt e. h (suc k) (omega arith) (omega arith))
        ∙ rw
            (
              mul_assoc num s.x (product byte_field (points shares)).0,
              mul_assoc den (byte_xor a.0 s.x) (weight byte_field a (points shares)).0,
            )
            refl)

products-append :
    (i xi : ℕ) (past rest : List Share) (j : ℕ) (acc : ℕ × ℕ)
    → products i xi (past ++ rest) j acc
      ≡ products i xi rest (j + length past) (products i xi past j acc)
unfolding products
products-append i xi [] rest j acc = ap (λ k. products i xi rest k acc) (omega arith)
products-append i xi (s ∷ past) rest j (num, den) =
    products-append i xi past rest (suc j)
      (if eqb i j then (num, den) else (gf_mul num s.x, gf_mul den (byte_xor xi s.x)))
    ∙ ap
        (λ k. products i xi rest k (
          products i xi past (suc j)
            (if eqb i j then (num, den) else (gf_mul num s.x, gf_mul den (byte_xor xi s.x)))))
        (omega arith)

eqb_self : (i : ℕ) → eqb i i ≡ true
eqb_self i = ground arith

products_own :
    (i xi : ℕ) (rest : List Share) (s : Share) (num den : ℕ)
    → products i xi (s ∷ rest) i (num, den) ≡ products i xi rest (suc i) (num, den)
unfolding products
products_own i xi rest s num den = rw (eqb_self i) refl

-- A share's own products are over the shares before it and after it.
products_others :
    (past rest : List Share) (s : Share)
    → Each HasByte past
    → Each HasByte rest
    → products (length past) (point s).0 (past ++ s ∷ rest) 0 (1, 1) ≡ (
      gf_mul (product byte_field (points past)).0 (product byte_field (points rest)).0,
      gf_mul
          (weight byte_field (point s) (points past)).0
          (weight byte_field (point s) (points rest)).0,
    )
products_others past rest s hp hr =
    let p = product byte_field (points past) in
    let w = weight byte_field (point s) (points past) in
    let before : products (length past) (point s).0 past 0 (1, 1) ≡ (p.0, w.0) =
      products_past (length past) (point s) past 0 1 1 (omega arith) (omega arith) hp
        (λ k lt e. omega arith)
      ∙ rw (mul_one p.0 p.1, mul_one w.0 w.1) refl in
    products-append (length past) (point s).0 past (s ∷ rest) 0 (1, 1)
    ∙ ap (λ acc. products (length past) (point s).0 (s ∷ rest) (0 + length past) acc) before
    ∙ ap (λ k. products (length past) (point s).0 (s ∷ rest) k (p.0, w.0)) (omega arith)
    ∙ products_own (length past) (point s).0 rest s p.0 w.0
    ∙ (products_past (length past) (point s) rest (suc (length past)) p.0 w.0 p.1 w.1 hr
        (λ k lt e. omega arith))

points-snoc :
    (past : List Share) (s : Share) → points (past ++ s ∷ []) ≡ points past ++ point s ∷ []
points-snoc [] s = refl
points-snoc (t ∷ past) s = ap (◌∷◌ (point t)) (points-snoc past s)

xor_ne : (a y : Byte) → y ≢ a → byte_xor a.0 y.0 ≢ 0
unfolding byte_field
xor_ne a y h e = sum_ne byte_field a y (λ same. h (sym same)) (byte_eq e)

weight_ne : (a : Byte) (ys : List Byte) → Each (λ y. y ≢ a) ys → (weight byte_field a ys).0 ≢ 0
unfolding weight byte_field
weight_ne a [] h = λ e. omega arith
weight_ne a (y ∷ ys) (hy, h) =
    mul_ne (byte_xor a.0 y.0) (weight byte_field a ys).0 (xor_ne a y hy) (weight_ne a ys h)

-- The quotient of a share's products.
basis :
    (past rest : List Share) (s : Share)
    → Each HasByte past
    → Each HasByte rest
    → HasByte s
    → Each (λ y. y ≢ point s) (points past)
    → Each (λ y. y ≢ point s) (points rest)
    → let acc = products (length past) s.x (past ++ s ∷ rest) 0 (1, 1) in
      gf_div acc.0 acc.1
      ≡ ok
          (byte_field.mul
            (byte_field.mul (product byte_field (points past)) (product byte_field (points rest)))
            (byte_field.inv (
              byte_field.mul
                (weight byte_field (point s) (points past))
                (weight byte_field (point s) (points rest))))).0
unfolding byte_field
basis past rest s hp hr hs past_s rest_s =
    let w = weight byte_field (point s) (points past) in
    let w' = weight byte_field (point s) (points rest) in
    let p = product byte_field (points past) in
    let p' = product byte_field (points rest) in
    let others =
      ap (λ x. products (length past) x (past ++ s ∷ rest) 0 (1, 1)) (sym (mod_small s.x hs))
      ∙ products_others past rest s hp hr in
    ap (λ acc. gf_div acc.0 acc.1) others
    ∙ gf_div-mul (gf_mul p.0 p'.0) (gf_mul w.0 w'.0) (mul_lt p.0 p'.0) (mul_lt w.0 w'.0) (
        mul_ne w.0 w'.0 (weight_ne (point s) (points past) past_s)
          (weight_ne (point s) (points rest) rest_s))

Each-apart :
    (past rest : List Byte) (a : Byte)
    → Each (λ x. Each (λ y. y ≢ x) past) rest
    → Each (λ y. y ≢ a) rest
    → Each (λ x. Each (λ y. y ≢ x) (past ++ a ∷ [])) rest
Each-apart past [] a h d = tt
Each-apart past (x ∷ rest) a (hx, h) (dx, d) =
    (Each-snoc (λ y. y ≢ x) past a hx (λ e. dx (sym e)), Each-apart past rest a h d)

interpolate_shift :
    (b : ℕ) (past rest : List Share) (s : Share) (acc : ℕ)
    → interpolate ((past ++ s ∷ []) ++ rest) b (length (past ++ s ∷ [])) rest acc
      ≡ interpolate (past ++ s ∷ rest) b (suc (length past)) rest acc
interpolate_shift b past rest s acc =
    ap (λ all. interpolate all b (length (past ++ s ∷ [])) rest acc)
      (append_assoc past (s ∷ []) rest)
    ∙ ap (λ i. interpolate (past ++ s ∷ rest) b i rest acc)
        (length-append past (s ∷ []) ∙ omega arith)

pub interpolate-terms :
    (f : Byte → Byte) (b : ℕ) (past rest : List Share) (acc : ℕ)
    → acc < 256
    → Each HasByte past
    → Each HasByte rest
    → Each (λ s. get_or s.y b 0 ≡ (f (point s)).0) rest
    → Each (λ a. Each (λ y. y ≢ a) (points past)) (points rest)
    → IsDistinct (points rest)
    → interpolate (past ++ rest) b (length past) rest acc
      ≡ ok (byte_xor acc (terms byte_field f (points past) (points rest)).0)
unfolding interpolate terms byte_field
interpolate-terms f b past [] acc ha hp hr hf apart d = ap ok (sym (byte_xor_zero acc ha))
interpolate-terms f b past (s ∷ rest) acc ha hp (hs, hr) (fs, hf) (past_s, apart) (rest_s, d) =
    let q =
      (byte_field.mul
        (byte_field.mul (product byte_field (points past)) (product byte_field (points rest)))
        (byte_field.inv (
          byte_field.mul (weight byte_field (point s) (points past))
            (weight byte_field (point s) (points rest))))).0 in
    let term = gf_mul (f (point s)).0 q in
    let past' = past ++ s ∷ [] in
    let apart' =
      subst (λ ps. Each (λ a. Each (λ y. y ≢ a) ps) (points rest)) (sym (points-snoc past s))
        (Each-apart (points past) (points rest) (point s) apart rest_s) in
    let ih =
      interpolate-terms f b past' rest (byte_xor acc term) (byte_xor_lt acc term)
        (Each-snoc HasByte past s hp hs) hr hf apart' d in
    rw (basis past rest s hp hr hs past_s rest_s, fs)
      (sym (interpolate_shift b past rest s (byte_xor acc term))
        ∙ ih
        ∙ ap ok (
            byte_xor_assoc acc term (terms byte_field f (points past') (points rest)).0
            ∙ ap (λ ps. byte_xor acc (byte_xor term (terms byte_field f ps (points rest)).0))
                (points-snoc past s)))
