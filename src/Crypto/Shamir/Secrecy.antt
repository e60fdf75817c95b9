-- ===== src/Crypto/Shamir/Secrecy.antt =====
-- core/src/crypto/shamir.cpp: fewer shares than the threshold say nothing of the secret.
use fin_bit.Prelude.{
  ℕ, ◌-◌, ◌%◌, ◌<◌, ◌≤◌, ◌≡◌, refl, sym, ap, subst, ◌∙◌, ◌≢◌, inl, inr, List, [], ◌∷◌, map, false,
  Bytes, IsBytes, length, length-map, get_or, ltb, if◌then◌else◌, arith, Bool-cases,
}
use fin_bit.Prelude.Result.{ok}
use fin_bit.Crypto.Shamir.{Share, blank_shares, coefficients, gf_eval, split, split_bytes}
use fin_bit.Crypto.Shamir.Algebra.{Each, Each-imp, IsDistinct, mul-inv_cancel, poly, self_cancel}
use fin_bit.Crypto.Shamir.Fitting.{fit, length-fit, length-pad, pad, poly-fit, poly-pad}
use fin_bit.Crypto.Shamir.ByteField.{Byte, byte_field, gf_eval-poly, to_byte}
use fin_bit.Crypto.Shamir.Loops.{point, points}
use fin_bit.Crypto.Shamir.Splitting.{split-IsShare}
use fin_bit.Crypto.Shamir.Recovery.{
  Each-In, In, IsWhole, coefficients-IsBytes, coordinates, get_or_byte, points-IsDistinct,
  points_nonzero,
}
use fin_bit.Crypto.Shamir.Coordinates.{
  numbers, numbers-IsBytes, map-numbers, coordinates-split_bytes, same_coordinate, bytes_ext,
  share_eq, split_sizes,
}

one_at_most : (n : ℕ) → ltb 1 n ≡ false → 0 ≡ n - 1
one_at_most n h = ground arith

module _ (random : ℕ → ℕ → Bytes) (threshold : ℕ) (secret other : Bytes) (chosen : List Share) where
  -- The polynomial that was drawn for the byte b.
  drawn : ℕ → Byte → Byte
  drawn b = poly byte_field (map to_byte (coefficients random threshold b (get_or secret b 0)))

  -- What the polynomial without its constant, the other secret's byte, has to be.
  wanted : ℕ → Byte → Byte
  unfolding drawn
  wanted b x =
      byte_field.mul (byte_field.add (drawn b x) (to_byte (get_or other b 0))) (byte_field.inv x)

  fitted : ℕ → List Byte
  unfolding wanted
  fitted b = fit byte_field (wanted b) (points chosen)

  -- Random bytes that give the chosen shares for the other secret.
  redrawn : ℕ → ℕ → Bytes
  unfolding fitted
  redrawn b n = numbers (pad byte_field n (fitted b))

  length-fitted : (b : ℕ) → length (fitted b) ≡ length chosen
  unfolding fitted
  length-fitted b = length-fit byte_field (wanted b) (points chosen) ∙ length-map chosen point

  redrawn_draws : (b n : ℕ) → (length (redrawn b n) ≡ n) × IsBytes (redrawn b n)
  unfolding redrawn
  redrawn_draws b n = (
    length-map (pad byte_field n (fitted b)) (λ (c : Byte). c.0)
        ∙ length-pad byte_field n (fitted b),
    numbers-IsBytes (pad byte_field n (fitted b)),
  )

  coefficients-redrawn :
      (b c : ℕ)
      → coefficients redrawn threshold b c ≡ c ∷ numbers (pad byte_field (threshold - 1) (fitted b))
  unfolding coefficients redrawn pad
  coefficients-redrawn b c = elim (Bool-cases (ltb 1 threshold)) [
    | inl more ↦ rw more refl
    | inr one ↦
        rw one (ap (λ n. c ∷ numbers (pad byte_field n (fitted b))) (one_at_most threshold one))
  ]

  module _ (draws : (b n : ℕ) → (length (random b n) ≡ n) × IsBytes (random b n))
      (bytes : IsBytes secret) (other_bytes : IsBytes other)
      (same_length : length other ≡ length secret) where
    drawn_value :
        (b : ℕ) (x : Byte)
        → (drawn b x).0 ≡ gf_eval (coefficients random threshold b (get_or secret b 0)) x.0
    unfolding drawn coefficients
    drawn_value b x =
        gf_eval-poly (get_or secret b 0) (if ltb 1 threshold then random b (threshold - 1) else [])
          x
          (coefficients-IsBytes random threshold secret b (get_or secret b 0)
            (draws b (threshold - 1)).1 (get_or_byte secret b bytes))

    -- Where the fitted polynomial has the wanted value, the redrawn one has the drawn value.
    redrawn_at :
        (b : ℕ) (x : Byte)
        → length chosen < threshold
        → x ≢ byte_field.nought
        → poly byte_field (fitted b) x ≡ wanted b x
        → gf_eval (coefficients redrawn threshold b (get_or other b 0)) x.0
          ≡ gf_eval (coefficients random threshold b (get_or secret b 0)) x.0
    unfolding poly wanted
    redrawn_at b x few nonzero fits =
        let c = get_or other b 0 in
        let cs = pad byte_field (threshold - 1) (fitted b) in
        let short : length (fitted b) ≤ threshold - 1 = omega (arith, length-fitted b) in
        ap (λ coeffs. gf_eval coeffs x.0) (coefficients-redrawn b c)
        ∙ sym (gf_eval-poly c (numbers cs) x (get_or_byte other b other_bytes, numbers-IsBytes cs))
        ∙ ap (λ (v : Byte). v.0)
            (ap (λ l. byte_field.add (to_byte c) (byte_field.mul x (poly byte_field l x)))
                (map-numbers cs)
              ∙ ap (λ p. byte_field.add (to_byte c) (byte_field.mul x p))
                  (poly-pad byte_field (threshold - 1) (fitted b) x short ∙ fits)
              ∙ ap (byte_field.add (to_byte c))
                  (mul-inv_cancel byte_field x (byte_field.add (drawn b x) (to_byte c)) nonzero)
              ∙ self_cancel byte_field (to_byte c) (drawn b x))
        ∙ drawn_value b x

    Each-redrawn :
        (b : ℕ) (some : List Share)
        → length chosen < threshold
        → Each (IsWhole random threshold secret) some
        → Each (λ x. x ≢ byte_field.nought) (points some)
        → Each (λ x. poly byte_field (fitted b) x ≡ wanted b x) (points some)
        → Each
            (λ s.
              gf_eval (coefficients redrawn threshold b (get_or other b 0)) s.x
              ≡ gf_eval (coefficients random threshold b (get_or secret b 0)) s.x)
            some
    Each-redrawn b [] few whole nonzero fits = tt
    Each-redrawn b (s ∷ some) few (hs, whole) (ns, nonzero) (fs, fits) =
        let here : s.x % 256 ≡ s.x = omega (arith, hs.is_byte) in
        (
          subst
              (λ x.
                gf_eval (coefficients redrawn threshold b (get_or other b 0)) x
                ≡ gf_eval (coefficients random threshold b (get_or secret b 0)) x)
              here (redrawn_at b (point s) few ns fs),
          Each-redrawn b some few whole nonzero fits,
        )

    redrawn-chosen :
        (b : ℕ) (s : Share)
        → length chosen < threshold
        → Each (IsWhole random threshold secret) chosen
        → IsDistinct (coordinates chosen)
        → In s chosen
        → gf_eval (coefficients redrawn threshold b (get_or other b 0)) s.x
          ≡ gf_eval (coefficients random threshold b (get_or secret b 0)) s.x
    unfolding fitted
    redrawn-chosen b s few whole d m =
        Each-In
          (λ t.
            gf_eval (coefficients redrawn threshold b (get_or other b 0)) t.x
            ≡ gf_eval (coefficients random threshold b (get_or secret b 0)) t.x)
          chosen s
          (Each-redrawn b chosen few whole (points_nonzero random threshold secret chosen whole) (
            poly-fit byte_field (wanted b) (points chosen)
              (points-IsDistinct random threshold secret chosen whole d)))
          m

    -- A chosen share is among the shares of the other secret.
    chosen_again :
        (shares shares' : List Share) (s : Share)
        → length chosen < threshold
        → Each (IsWhole random threshold secret) chosen
        → IsDistinct (coordinates chosen)
        → Each (IsWhole redrawn threshold other) shares'
        → coordinates shares ≡ coordinates shares'
        → In s chosen
        → In s shares
        → In s shares'
    chosen_again shares shares' s few whole d whole' same m member =
        let (t, t_member, et) = same_coordinate shares shares' s same member in
        let hs = Each-In (IsWhole random threshold secret) chosen s whole m in
        let ht = Each-In (IsWhole redrawn threshold other) shares' t whole' t_member in
        let ey : t.y ≡ s.y = bytes_ext t.y s.y (ht.as_long ∙ same_length ∙ sym hs.as_long) (λ i lt.
          ht.value_at i (omega (arith, ht.as_long))
          ∙ ap (gf_eval (coefficients redrawn threshold i (get_or other i 0))) et
          ∙ redrawn-chosen i s few whole d m
          ∙ sym (hs.value_at i (omega (arith, ht.as_long, same_length)))) in
        subst (λ u. In u shares') (share_eq t s et ey) t_member

Each-of :
    (P : Share → Type 0) (shares : List Share) → ((s : Share) → In s shares → P s) → Each P shares
Each-of P [] h = tt
Each-of P (s ∷ shares) h = (h s (inl refl), Each-of P shares (λ t m. h t (inr m)))

-- Fewer shares than the threshold fit every other secret of the same length: some random bytes split
-- it into shares among which they are, if no two of them are the same.
pub split-hides :
    (random : ℕ → ℕ → Bytes) (secret other : Bytes) (threshold total : ℕ)
    (shares chosen : List Share)
    → ((b n : ℕ) → (length (random b n) ≡ n) × IsBytes (random b n))
    → IsBytes secret
    → IsBytes other
    → length other ≡ length secret
    → total < 256
    → split random secret threshold total ≡ ok shares
    → Each (λ s. In s shares) chosen
    → IsDistinct (coordinates chosen)
    → length chosen < threshold
    → (again : ℕ → ℕ → Bytes) × ((b n : ℕ) → (length (again b n) ≡ n) × IsBytes (again b n))
      × ((others : List Share) × (split again other threshold total ≡ ok others)
          × Each (λ s. In s others) chosen)
split-hides random secret other threshold total shares chosen draws bytes other_bytes same small e
      members d few =
    let again = redrawn random threshold secret other chosen in
    let others = split_bytes again threshold other 0 (blank_shares (length other) 0 total) in
    let (made, possible) = split_sizes random again secret other threshold total shares same e in
    let whole = (split-IsShare random threshold secret total shares small e).2 in
    let whole' = (split-IsShare again threshold other total others small possible).2 in
    let chosen_whole =
      Each-imp chosen (λ s m. Each-In (IsWhole random threshold secret) shares s whole m) members in
    let coordinates_same : coordinates shares ≡ coordinates others =
      ap coordinates (sym made)
      ∙ coordinates-split_bytes random threshold secret 0 (blank_shares (length secret) 0 total)
      ∙ ap (λ n. coordinates (blank_shares n 0 total)) (sym same)
      ∙ sym
          (coordinates-split_bytes again threshold other 0 (blank_shares (length other) 0 total)) in
    (
      again,
      redrawn_draws random threshold secret other chosen,
      (
        others,
        possible,
        Each-of (λ s. In s others) chosen
            (λ s m.
              chosen_again random threshold secret other chosen draws bytes other_bytes same shares
                others s few chosen_whole d whole' coordinates_same m
                (Each-In (λ t. In t shares) chosen s members m)),
      ),
    )
