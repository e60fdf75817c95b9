-- ===== src/Crypto/Shamir/Coordinates.antt =====
-- core/src/crypto/shamir.cpp: what shares are told apart by.
use fin_bit.Prelude.{
  ℕ, suc, ◌<◌, ◌≡◌, refl, sym, ap, ◌∙◌, inl, inr, List, [], ◌∷◌, map, ◌||◌, Bytes, IsBytes, length,
  get_or, drop, eqb, ltb, arith, Bool-cases,
}
use fin_bit.Prelude.Result.{ok}
use fin_bit.Crypto.Shamir.{Share, blank_shares, coefficients, put_byte, split, split_bytes}
use fin_bit.Crypto.Shamir.ByteField.{Byte, byte_eq, to_byte}
use fin_bit.Crypto.Shamir.Recovery.{In, coordinates}

-- The bytes alone.
abbrev pub numbers : List Byte → Bytes
numbers cs = map (λ (c : Byte). c.0) cs

pub numbers-IsBytes : (cs : List Byte) → IsBytes (numbers cs)
numbers-IsBytes [] = tt
numbers-IsBytes (c ∷ cs) = (c.1, numbers-IsBytes cs)

to_byte_back : (c : Byte) → to_byte c.0 ≡ c
to_byte_back c = byte_eq (omega (arith, c.1))

pub map-numbers : (cs : List Byte) → map to_byte (numbers cs) ≡ cs
map-numbers [] = refl
map-numbers (c ∷ cs) = rw (to_byte_back c, map-numbers cs) refl

-- The coordinates are those of the blank shares, whatever is split.
coordinates-put_byte :
    (b : ℕ) (coeffs : Bytes) (shares : List Share)
    → coordinates (map (put_byte b coeffs) shares) ≡ coordinates shares
unfolding put_byte
coordinates-put_byte b coeffs [] = refl
coordinates-put_byte b coeffs (s ∷ shares) = ap (◌∷◌ s.x) (coordinates-put_byte b coeffs shares)

pub coordinates-split_bytes :
    (random : ℕ → ℕ → Bytes) (threshold : ℕ) (bytes : Bytes) (b : ℕ) (shares : List Share)
    → coordinates (split_bytes random threshold bytes b shares) ≡ coordinates shares
unfolding split_bytes
coordinates-split_bytes random threshold [] b shares = refl
coordinates-split_bytes random threshold (byte ∷ bytes) b shares =
    let coeffs = coefficients random threshold b byte in
    coordinates-split_bytes random threshold bytes (suc b) (map (put_byte b coeffs) shares)
    ∙ coordinates-put_byte b coeffs shares

-- Some share of the list has the coordinate of each share of another list with the same coordinates.
pub same_coordinate :
    (shares others : List Share) (s : Share)
    → coordinates shares ≡ coordinates others
    → In s shares
    → (t : Share) × In t others × (t.x ≡ s.x)
same_coordinate [] others s e m = absurd m
same_coordinate (r ∷ shares) [] s e m = absurd (omega (arith, ap length e))
same_coordinate (r ∷ shares) (t ∷ others) s e m = elim m [
  | inl same ↦ (t, inl refl, ap (λ l. get_or l 0 0) (sym e) ∙ ap (λ (u : Share). u.x) (sym same))
  | inr later ↦
      let (u, member, eu) = same_coordinate shares others s (ap (drop 1) e) later in
      (u, inr member, eu)
]

-- Two byte strings of one length with the same bytes are the same.
pub bytes_ext :
    (xs ys : Bytes)
    → length xs ≡ length ys
    → ((i : ℕ) → i < length xs → get_or xs i 0 ≡ get_or ys i 0)
    → xs ≡ ys
bytes_ext [] [] e h = refl
bytes_ext [] (y ∷ ys) e h = absurd (omega arith)
bytes_ext (x ∷ xs) [] e h = absurd (omega arith)
bytes_ext (x ∷ xs) (y ∷ ys) e h =
    rw (h 0 (omega arith), bytes_ext xs ys (omega arith) (λ i lt. h (suc i) (omega arith))) refl

pub share_eq : (s t : Share) → s.x ≡ t.x → s.y ≡ t.y → s ≡ t
share_eq s t ex ey = ap (λ k. record { x = k; y = s.y }) ex ∙ ap (λ k. record { x = t.x; y = k }) ey

-- A split succeeds or fails by its sizes alone.
pub split_sizes :
    (random random' : ℕ → ℕ → Bytes) (secret other : Bytes) (threshold total : ℕ)
    (shares : List Share)
    → length other ≡ length secret
    → split random secret threshold total ≡ ok shares
    → (split_bytes random threshold secret 0 (blank_shares (length secret) 0 total) ≡ shares)
      × (split random' other threshold total
          ≡ ok (split_bytes random' threshold other 0 (blank_shares (length other) 0 total)))
unfolding split
split_sizes random random' secret other threshold total shares same e =
    elim (Bool-cases (eqb (length secret) 0)) [
      | inl empty ↦ absurd (ground arith)
      | inr bytes ↦ elim (Bool-cases (eqb threshold 0 || eqb total 0 || ltb total threshold)) [
        | inl bad ↦ absurd (ground arith)
        | inr good ↦ (ground arith, ground arith)
      ]
    ]
