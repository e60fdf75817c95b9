-- ===== src/Identity/UsernameLog/Signing.antt =====
-- core/src/identity/username_log.cpp: what the signature of a claim covers.
use fin_bit.Prelude.{
  ℕ, ◌+◌, ◌*◌, ◌/◌, ◌%◌, ◌^◌, ◌<◌, ◌≡◌, refl, sym, ap, ◌∙◌, [], ◌∷◌, ◌++◌, Bytes, be16, be64,
  byte_at, nat_eq, list_eq, length, get_or, drop, eqb, arith, Bool-cases, inl, inr,
}
use fin_bit.Prelude.Result.{ok}
use fin_bit.Identity.UsernameLog.{canonical_magic, canonical_signing_bytes}

append-cancel :
    (xs ys zs ws : Bytes) → length xs ≡ length ys → xs ++ zs ≡ ys ++ ws → (xs ≡ ys) × (zs ≡ ws)
append-cancel [] [] zs ws e h = (refl, h)
append-cancel [] (y ∷ ys) zs ws e h = absurd (omega arith)
append-cancel (x ∷ xs) [] zs ws e h = absurd (omega arith)
append-cancel (x ∷ xs) (y ∷ ys) zs ws e h =
    let tails = append-cancel xs ys zs ws (omega arith) (cc) in
    let heads : x ≡ y = cc in (ground (arith, heads, tails.0), tails.1)

be16-injective : (m n : ℕ) → m < 2 ^ 16 → n < 2 ^ 16 → be16 m ≡ be16 n → m ≡ n
be16-injective m n hm hn e =
    let high : byte_at m 8 ≡ byte_at n 8 = cc in
    let low : byte_at m 0 ≡ byte_at n 0 = cc in omega (arith, high, low)

-- The halves of a 64-bit number, and of each the bytes.
join : (n : ℕ) → n / 2 ^ 32 * 2 ^ 32 + n % 2 ^ 32 ≡ n
join n = omega arith

be64-injective : (m n : ℕ) → m < 2 ^ 64 → n < 2 ^ 64 → be64 m ≡ be64 n → m ≡ n
be64-injective m n hm hn e =
    let at = λ (i : ℕ). ap (λ (bytes : Bytes). get_or bytes i 0) e in
    let high : m / 2 ^ 32 ≡ n / 2 ^ 32 = omega (arith, at 0, at 1, at 2, at 3) in
    let low : m % 2 ^ 32 ≡ n % 2 ^ 32 = omega (arith, at 4, at 5, at 6, at 7) in
    sym (join m) ∙ rw (high, low) (join n)

abbrev after_size : Bytes → Bytes → ℕ → Bytes → Bytes
after_size u p t n = u ++ (32 ∷ (p ++ (be64 t ++ (16 ∷ n))))

abbrev after_magic : Bytes → Bytes → ℕ → Bytes → Bytes
after_magic u p t n = be16 (length u % 2 ^ 16) ++ after_size u p t n

signed :
    (u p : Bytes) (t : ℕ) (n bytes : Bytes)
    → canonical_signing_bytes u p t n ≡ ok bytes
    → (length p ≡ 32) × (length n ≡ 16) × (canonical_magic ++ after_magic u p t n ≡ bytes)
unfolding canonical_signing_bytes
signed u p t n bytes e = elim (Bool-cases (eqb (length p) 32)) [
  | inr bad ↦ absurd (ground arith)
  | inl good_p ↦ elim (Bool-cases (eqb (length n) 16)) [
    | inr bad ↦ absurd (ground arith)
    | inl good_n ↦ (ground arith, ground arith, ground arith)
  ]
]

-- Signed bytes determine what they were made of: the name, the key, the time and the nonce, if names
-- are shorter than 65536 bytes and times are 64-bit numbers.
pub canonical_signing_bytes-injective :
    (u u' p p' : Bytes) (t t' : ℕ) (n n' bytes : Bytes)
    → length u < 2 ^ 16
    → length u' < 2 ^ 16
    → t < 2 ^ 64
    → t' < 2 ^ 64
    → canonical_signing_bytes u p t n ≡ ok bytes
    → canonical_signing_bytes u' p' t' n' ≡ ok bytes
    → (u ≡ u') × (p ≡ p') × (t ≡ t') × (n ≡ n')
canonical_signing_bytes-injective u u' p p' t t' n n' bytes hu hu' ht ht' e e' =
    let (lp, ln, b) = signed u p t n bytes e in
    let (lp', ln', b') = signed u' p' t' n' bytes e' in
    let tails : after_magic u p t n ≡ after_magic u' p' t' n' = ap (drop 25) (b ∙ sym b') in
    let (sizes, names) =
      append-cancel (be16 (length u % 2 ^ 16)) (be16 (length u' % 2 ^ 16)) (after_size u p t n)
        (after_size u' p' t' n') refl tails in
    let sized =
      be16-injective (length u % 2 ^ 16) (length u' % 2 ^ 16) (omega arith) (omega arith) sizes in
    let (name, keys) =
      append-cancel u u' (32 ∷ (p ++ (be64 t ++ (16 ∷ n)))) (32 ∷ (p' ++ (be64 t' ++ (16 ∷ n'))))
        (omega arith) names in
    let (key, times) =
      append-cancel p p' (be64 t ++ (16 ∷ n)) (be64 t' ++ (16 ∷ n')) (omega arith)
        (ap (drop 1) keys) in
    let (time, nonces) = append-cancel (be64 t) (be64 t') (16 ∷ n) (16 ∷ n') refl times in
    (name, key, be64-injective t t' ht ht' time, ap (drop 1) nonces)
