-- ===== src/Crypto/Shamir/Recovery.antt =====
-- core/src/crypto/shamir.cpp: `combine` after `split`.
use fin_bit.Prelude.{
  ℕ, zero, suc, ◌+◌, ◌-◌, ◌<◌, ◌≤◌, ◌≡◌, refl, sym, ap, subst, ◌∙◌, ◌≢◌, ◌⊎◌, inl, inr, List, [],
  ◌∷◌, map, false, none, Bytes, IsBytes, length, length-map, drop, drop-eq-cons, drop-ge, get_or,
  eqb, ltb, if◌then◌else◌, arith, Bool-cases, byte_xor_zero, byte_xor_comm,
}
use fin_bit.Prelude.Result.{ok}
use fin_bit.Crypto.Shamir.{
  Share, check_shares, coefficients, combine, combine_bytes, gf_eval, has_coordinate, interpolate,
  split,
}
use fin_bit.Crypto.Shamir.Algebra.{Each, Each-imp, IsDistinct, poly}
use fin_bit.Crypto.Shamir.Interpolation.{terms, terms-poly}
use fin_bit.Crypto.Shamir.ByteField.{Byte, byte_field, gf_eval-poly, to_byte}
use fin_bit.Crypto.Shamir.Loops.{interpolate-terms, point, points}
use fin_bit.Crypto.Shamir.Splitting.{IsShare, split-IsShare}

abbrev pub In : Share → List Share → Type 0
In s [] = ⊥
In s (t ∷ shares) = (s ≡ t) ⊎ In s shares

abbrev pub coordinates : List Share → List ℕ
coordinates shares = map (λ (s : Share). s.x) shares

pub Each-In :
    (P : Share → Type 0) (shares : List Share) (s : Share) → Each P shares → In s shares → P s
Each-In P [] s h m = absurd m
Each-In P (t ∷ shares) s (ht, h) m = elim m [
  | inl e ↦ subst P (sym e) ht
  | inr later ↦ Each-In P shares s h later
]

pub get_or_byte : (xs : Bytes) (i : ℕ) → IsBytes xs → get_or xs i 0 < 256
get_or_byte [] i h = omega arith
get_or_byte (x ∷ xs) zero h = h.0
get_or_byte (x ∷ xs) (suc i) h = get_or_byte xs i h.1

nonzero_test : (n : ℕ) → n ≢ 0 → eqb n 0 ≡ false
nonzero_test n h = ground arith

-- Past the tests.
combine_checked :
    (s : Share) (shares : List Share) (size : ℕ)
    → length s.y ≡ size
    → size ≢ 0
    → check_shares size (s ∷ shares) ≡ none
    → combine (s ∷ shares) ≡ combine_bytes (s ∷ shares) 0 size
unfolding combine
combine_checked s shares size e h passes =
    subst
      (λ k.
        k ≢ 0
        → check_shares k (s ∷ shares) ≡ none
        → combine (s ∷ shares) ≡ combine_bytes (s ∷ shares) 0 k)
      e (λ nonzero checked. rw (nonzero_test (length s.y) nonzero) (rw checked refl)) h passes

no_coordinate :
    (x : ℕ) (shares : List Share)
    → Each (λ y. y ≢ x) (coordinates shares)
    → has_coordinate x shares ≡ false
unfolding has_coordinate
no_coordinate x [] h = refl
no_coordinate x (s ∷ shares) (hs, h) = ground (arith, no_coordinate x shares h)

module _ (random : ℕ → ℕ → Bytes) (threshold : ℕ) (secret : Bytes) where
  abbrev pub IsWhole : Share → Type 0
  IsWhole s = IsShare random threshold secret (length secret) s

  check_shares_passes :
      (shares : List Share)
      → Each IsWhole shares
      → IsDistinct (coordinates shares)
      → check_shares (length secret) shares ≡ none
  unfolding check_shares
  check_shares_passes [] h d = refl
  check_shares_passes (s ∷ shares) (hs, h) (apart, d) = ground (
    arith,
    hs.nonzero,
    hs.as_long,
    no_coordinate s.x shares apart,
    check_shares_passes shares h d,
  )

  points_apart :
      (s : Share) (shares : List Share)
      → IsWhole s
      → Each IsWhole shares
      → Each (λ y. y ≢ s.x) (coordinates shares)
      → Each (λ y. y ≢ point s) (points shares)
  points_apart s [] hs h apart = tt
  points_apart s (t ∷ shares) hs (ht, h) (ne, apart) = (
    (λ e. ne (omega (arith, ap (λ (b : Byte). b.0) e, hs.is_byte, ht.is_byte))),
    points_apart s shares hs h apart,
  )

  pub points-IsDistinct :
      (shares : List Share)
      → Each IsWhole shares
      → IsDistinct (coordinates shares)
      → IsDistinct (points shares)
  points-IsDistinct [] h d = tt
  points-IsDistinct (s ∷ shares) (hs, h) (apart, d) =
      (points_apart s shares hs h apart, points-IsDistinct shares h d)

  pub points_nonzero :
      (shares : List Share)
      → Each IsWhole shares
      → Each (λ x. x ≢ byte_field.nought) (points shares)
  unfolding byte_field
  points_nonzero [] h = tt
  points_nonzero (s ∷ shares) (hs, h) = (
    (λ e. hs.nonzero (omega (arith, ap (λ (b : Byte). b.0) e, hs.is_byte))),
    points_nonzero shares h,
  )

  pub coefficients-IsBytes :
      (b byte : ℕ)
      → IsBytes (random b (threshold - 1))
      → byte < 256
      → IsBytes (coefficients random threshold b byte)
  unfolding coefficients
  coefficients-IsBytes b byte h hb = elim (Bool-cases (ltb 1 threshold)) [
    | inl more ↦ rw more (hb, h)
    | inr one ↦ rw one (hb, tt)
  ]

  length-coefficients :
      (b byte : ℕ)
      → length (random b (threshold - 1)) ≡ threshold - 1
      → threshold ≢ 0
      → length (coefficients random threshold b byte) ≡ threshold
  unfolding coefficients
  length-coefficients b byte h positive = elim (Bool-cases (ltb 1 threshold)) [
    | inl more ↦ rw more (ground (arith, h))
    | inr one ↦ rw one (ground arith)
  ]

  poly_zero : (cs : List Byte) (c : Byte) → poly byte_field (c ∷ cs) byte_field.nought ≡ c
  unfolding poly
  poly_zero cs c =
      ap (byte_field.add c) (byte_field.mul_nought (poly byte_field cs byte_field.nought))
      ∙ byte_field.add_nought c

  module _ (draws : (b n : ℕ) → (length (random b n) ≡ n) × IsBytes (random b n))
      (bytes : IsBytes secret) (positive : threshold ≢ 0) where
    -- The polynomial of the byte b.
    value : ℕ → Byte → Byte
    value b = poly byte_field (map to_byte (coefficients random threshold b (get_or secret b 0)))

    share_value :
        (b : ℕ) (s : Share) → b < length secret → IsWhole s → get_or s.y b 0 ≡ (value b (point s)).0
    unfolding value coefficients
    share_value b s lt is_share =
        let c = get_or secret b 0 in
        let rest = if ltb 1 threshold then random b (threshold - 1) else [] in
        is_share.value_at b lt
        ∙ sym (
            gf_eval-poly c rest (point s)
              (coefficients-IsBytes b c (draws b (threshold - 1)).1 (get_or_byte secret b bytes))
            ∙ ap (gf_eval (c ∷ rest)) (omega (arith, is_share.is_byte)))

    share_values :
        (b : ℕ) (shares : List Share)
        → b < length secret
        → Each IsWhole shares
        → Each (λ s. get_or s.y b 0 ≡ (value b (point s)).0) shares
    share_values b shares lt h = Each-imp shares (λ s is_share. share_value b s lt is_share) h

    value_zero : (b : ℕ) → (value b byte_field.nought).0 ≡ get_or secret b 0
    unfolding value coefficients
    value_zero b =
        ap (λ (v : Byte). v.0)
          (poly_zero (map to_byte (if ltb 1 threshold then random b (threshold - 1) else []))
            (to_byte (get_or secret b 0)))
        ∙ omega (arith, get_or_byte secret b bytes)

    interpolate_byte :
        (b : ℕ) (chosen : List Share)
        → b < length secret
        → Each IsWhole chosen
        → IsDistinct (coordinates chosen)
        → threshold ≤ length chosen
        → interpolate chosen b 0 chosen 0 ≡ ok (get_or secret b 0)
    unfolding value
    interpolate_byte b chosen lt h d enough =
        let cs = map to_byte (coefficients random threshold b (get_or secret b 0)) in
        let whole =
          terms-poly byte_field cs (points chosen)
            (omega (
              arith,
              length-map (coefficients random threshold b (get_or secret b 0)) to_byte,
              length-coefficients b (get_or secret b 0) (draws b (threshold - 1)).0 positive,
              length-map chosen point,
            ))
            (points-IsDistinct chosen h d) (points_nonzero chosen h) in
        let sum = terms byte_field (value b) [] (points chosen) in
        interpolate-terms (value b) b [] chosen 0 (omega arith) tt
          (Each-imp chosen (λ s is_share. is_share.is_byte) h) (share_values b chosen lt h)
          (Each-imp (points chosen) (λ x ne. tt) (points_nonzero chosen h))
          (points-IsDistinct chosen h d)
        ∙ ap ok (
            byte_xor_comm 0 sum.0
            ∙ byte_xor_zero sum.0 sum.1
            ∙ ap (λ (v : Byte). v.0) whole
            ∙ value_zero b)

    combine_bytes-drop :
        (chosen : List Share) (b n : ℕ)
        → b + n ≡ length secret
        → Each IsWhole chosen
        → IsDistinct (coordinates chosen)
        → threshold ≤ length chosen
        → combine_bytes chosen b n ≡ ok (drop b secret)
    unfolding combine_bytes
    combine_bytes-drop chosen b zero e h d enough = ap ok (sym (drop-ge secret b (omega arith)))
    combine_bytes-drop chosen b (suc n) e h d enough =
        rw
          (
            interpolate_byte b chosen (omega arith) h d enough,
            combine_bytes-drop chosen (suc b) n (omega arith) h d enough,
          )
          (ap ok (sym (drop-eq-cons secret b 0 (omega arith))))

    combine-IsShare :
        (chosen : List Share)
        → length secret ≢ 0
        → Each IsWhole chosen
        → IsDistinct (coordinates chosen)
        → threshold ≤ length chosen
        → combine chosen ≡ ok secret
    unfolding combine
    combine-IsShare [] some h d enough = absurd (positive (omega arith))
    combine-IsShare (s ∷ chosen) some (hs, h) d enough =
        combine_checked s chosen (length secret) hs.as_long some
          (check_shares_passes (s ∷ chosen) (hs, h) d)
        ∙ combine_bytes-drop (s ∷ chosen) 0 (length secret) (omega arith) (hs, h) d enough

-- Any shares of a split secret, in any order, give it back when there are as many as the threshold
-- and no two are the same, if the random bytes are as many as asked for.
pub split-combine :
    (random : ℕ → ℕ → Bytes) (secret : Bytes) (threshold total : ℕ) (shares chosen : List Share)
    → ((b n : ℕ) → (length (random b n) ≡ n) × IsBytes (random b n))
    → IsBytes secret
    → total < 256
    → split random secret threshold total ≡ ok shares
    → Each (λ s. In s shares) chosen
    → IsDistinct (coordinates chosen)
    → threshold ≤ length chosen
    → combine chosen ≡ ok secret
split-combine random secret threshold total shares chosen draws bytes small e members d enough =
    let (some, positive, whole) = split-IsShare random threshold secret total shares small e in
    combine-IsShare random threshold secret draws bytes positive chosen some
      (Each-imp chosen
        (λ s m. Each-In (IsShare random threshold secret (length secret)) shares s whole m) members)
      d enough
