-- ===== src/Crypto/Padding/Laws.antt =====
-- What padding promises: it can be undone, it yields a bucket size, and it is detected.
use fin_bit.Prelude.{
  ℕ, zero, suc, ◌+◌, ◌-◌, ◌≤◌, ◌<◌, ◌≡◌, ◌≢◌, ◌↔◌, refl, ap, sym, ◌∙◌, subst, ◌⊎◌, inl, inr, List,
  [], ◌∷◌, ◌++◌, Bytes, length, length-append, length-replicate, get_or, take, drop, replicate, leb,
  eqb, eqb_iff, arith, Bool-cases, take-length-append, take-append-drop, get_or-append_right,
  get_or-replicate, drop-eq-cons, drop-ge,
}
use fin_bit.Prelude.Result.{Result, ok, err}
use fin_bit.Crypto.Padding.{
  PaddingError, exceeds_largest, pick_bucket, fill, pad_to_bucket, skip_zeros, check_marker,
  strip_padding,
}

-- The padded form of a plaintext: the marker, then zeros.
abbrev pub padded_with : Bytes → ℕ → Bytes
padded_with p k = p ++ (0x80 ∷ replicate k 0)

fill_lem : (p : Bytes) (t : ℕ) → length p < t → fill p t ≡ padded_with p (t - length p - 1)
unfolding fill
fill_lem p zero h = elim h [ ]
fill_lem [] (suc t) h = ap (λ k. 0x80 ∷ replicate k 0) (omega arith)
fill_lem (x ∷ p) (suc t) h =
    ap (◌∷◌ x) (fill_lem p t (omega arith) ∙ ap (padded_with p) (omega arith))

-- A bucket that is picked fits, is on the ladder, and every bucket before it is too small.
pub data Picks (needed : ℕ) : List ℕ → ℕ → Type 0 where
  here : {b : ℕ} {bs : List ℕ} → needed ≤ b → Picks needed (b ∷ bs) b
  later : {b t : ℕ} {bs : List ℕ} → b < needed → Picks needed bs t → Picks needed (b ∷ bs) t

pick_bucket-Picks :
    (n : ℕ) (bs : List ℕ) → pick_bucket (n + 1) bs ≢ 0 → Picks (n + 1) bs (pick_bucket (n + 1) bs)
unfolding pick_bucket
pick_bucket-Picks n [] h = absurd (h refl)
pick_bucket-Picks n (b ∷ bs) h = elim (Bool-cases (leb (n + 1) b)) [
  | inl fits ↦ rw fits (here (ground arith))
  | inr small ↦ rw small (later (ground arith) (pick_bucket-Picks n bs (rw small at h)))
]

-- Every bucket of the ladder is below what is needed.
abbrev pub TooSmall : ℕ → List ℕ → Type 0
TooSmall n [] = Unit
TooSmall n (b ∷ bs) = (b < n) × TooSmall n bs

pick_bucket-TooSmall : (n : ℕ) (bs : List ℕ) → pick_bucket (n + 1) bs ≡ 0 → TooSmall (n + 1) bs
unfolding pick_bucket
pick_bucket-TooSmall n [] h = tt
pick_bucket-TooSmall n (b ∷ bs) h = elim (Bool-cases (leb (n + 1) b)) [
  | inl fits ↦ absurd (let e : b ≡ 0 = rw fits at h in ground arith)
  | inr small ↦ (ground arith, pick_bucket-TooSmall n bs (rw small at h))
]

Picks-le : {n t : ℕ} {bs : List ℕ} → Picks n bs t → n ≤ t
Picks-le (here h) = h
Picks-le (later h p) = Picks-le p

-- The zero tail.
skip_run :
    (xs : Bytes) (k i n : ℕ)
    → i + k ≡ n
    → ((j : ℕ) → i ≤ j → j < n → get_or xs j 0 ≡ 0)
    → skip_zeros xs n ≡ skip_zeros xs i
unfolding skip_zeros
skip_run xs zero i n e h = ap (skip_zeros xs) (omega arith)
skip_run xs (suc k) i zero e h = absurd (omega arith)
skip_run xs (suc k) i (suc n) e h =
    rw (h n (omega arith) (omega arith))
      (skip_run xs k i n (omega arith) (λ j a b. h j a (omega arith)))

tail_zero : (p : Bytes) (k j : ℕ) → suc (length p) ≤ j → get_or (padded_with p k) j 0 ≡ 0
tail_zero p k j h =
    get_or-append_right p _ (suc (j - length p - 1)) j 0 (omega arith)
    ∙ get_or-replicate k (j - length p - 1) 0

marker_at : (p : Bytes) (k : ℕ) → get_or (padded_with p k) (length p) 0 ≡ 0x80
marker_at p k = get_or-append_right p _ 0 (length p) 0 (omega arith)

length-padded_with : (p : Bytes) (k : ℕ) → length (padded_with p k) ≡ suc (length p) + k
length-padded_with p k =
    omega (arith, length-append p (0x80 ∷ replicate k 0), length-replicate {A = ℕ} k 0)

skip-padded_with :
    (p : Bytes) (k : ℕ) → skip_zeros (padded_with p k) (length (padded_with p k)) ≡ suc (length p)
skip-padded_with p k =
    skip_run (padded_with p k) k (suc (length p)) _ (sym (length-padded_with p k))
      (λ j a b. tail_zero p k j a)
    ∙ stop
  where
    stop : skip_zeros (padded_with p k) (suc (length p)) ≡ suc (length p)
    stop = unfold skip_zeros in rw (marker_at p k)

strip_padding_lem :
    (xs : Bytes) → 0 < length xs → strip_padding xs ≡ check_marker xs (skip_zeros xs (length xs))
unfolding strip_padding
strip_padding_lem [] h = absurd (omega arith)
strip_padding_lem (x ∷ xs) h = refl

strip-padded_with : (p : Bytes) (k : ℕ) → strip_padding (padded_with p k) ≡ ok p
strip-padded_with p k =
    strip_padding_lem (padded_with p k) (omega (arith, length-padded_with p k))
    ∙ rw (skip-padded_with p k) found
  where
    found : check_marker (padded_with p k) (suc (length p)) ≡ ok p
    found = unfold check_marker in rw (marker_at p k) (ap ok (take-length-append p _))

-- What the scan leaves behind it is zeros.
skip_zeros_tail :
    (xs : Bytes) (n k : ℕ)
    → n ≤ length xs
    → drop n xs ≡ replicate k 0
    → (m : ℕ) × (drop (skip_zeros xs n) xs ≡ replicate m 0)
unfolding skip_zeros
skip_zeros_tail xs zero k h e = (k, e)
skip_zeros_tail xs (suc n) k h e = elim (Bool-cases (eqb (get_or xs n 0) 0)) [
  | inr stop ↦ rw stop (k, e)
  | inl go ↦ rw go (
      skip_zeros_tail xs n (suc k) (omega arith)
        (drop-eq-cons xs n 0 h ∙ rw ((eqb_iff _ 0).0 go, e)))
]

skip_zeros-le : (xs : Bytes) (n : ℕ) → skip_zeros xs n ≤ n
unfolding skip_zeros
skip_zeros-le xs zero = omega arith
skip_zeros-le xs (suc n) = ground (arith, skip_zeros-le xs n)

check_marker-ok :
    (xs : Bytes) (i m : ℕ) {p : Bytes}
    → i ≤ length xs
    → drop i xs ≡ replicate m 0
    → check_marker xs i ≡ ok p
    → xs ≡ padded_with p m
unfolding check_marker
check_marker-ok xs zero m h e c = cc
check_marker-ok xs (suc i) m {p} h e c = elim (Bool-cases (eqb (get_or xs i 0) 0x80)) [
  | inr bad ↦ cc (rw bad at c)
  | inl marked ↦
      let taken : take i xs ≡ p = ground arith in
      sym (take-append-drop i xs) ∙ rw (drop-eq-cons xs i 0 h, (eqb_iff _ 0x80).0 marked, e, taken)
]

-- `strip_padding` accepts exactly the byte strings that end in the marker and zeros, and returns
-- what stands before the marker.
pub strip_padding_iff :
    (xs p : Bytes) → (strip_padding xs ≡ ok p) ↔ ((k : ℕ) × (xs ≡ padded_with p k))
strip_padding_iff xs p = (sound xs, complete)
  where
    complete : ((k : ℕ) × (xs ≡ padded_with p k)) → strip_padding xs ≡ ok p
    complete w = rw w.1 (strip-padded_with p w.0)

    sound : (ys : Bytes) → strip_padding ys ≡ ok p → (k : ℕ) × (ys ≡ padded_with p k)
    sound [] c = unfold strip_padding in cc
    sound (y ∷ ys) c =
        let zs : Bytes = y ∷ ys in
        let (m, e) =
          skip_zeros_tail zs (length zs) 0 (omega arith) (drop-ge zs (length zs) (omega arith)) in
        (
          m,
          check_marker-ok zs (skip_zeros zs (length zs)) m (skip_zeros-le zs (length zs)) e
              (sym (strip_padding_lem zs (omega arith)) ∙ c),
        )

-- Padding yields a string as long as the first bucket with room for the plaintext and the marker,
-- and stripping that string gives the plaintext back; or it fails because no bucket has room.
abbrev pub Pads : Bytes → List ℕ → Result PaddingError Bytes → Type 0
Pads p bs r =
    ((out : Bytes) × (r ≡ ok out)
      × Picks (length p + 1) bs (length out)
      × (strip_padding out ≡ ok p))
    ⊎ ((r ≡ err exceeds_largest) × TooSmall (length p + 1) bs)

-- On a ladder with at least one bucket, padding yields a string as long as the first bucket that
-- has room for the plaintext and the marker, and stripping that string gives the plaintext back;
-- or it fails with the error for an oversized plaintext, and then every bucket is too small.
pub pad_to_bucket_correct :
    (p : Bytes) (b : ℕ) (bs : List ℕ) → Pads p (b ∷ bs) (pad_to_bucket p (b ∷ bs))
unfolding pad_to_bucket
pad_to_bucket_correct p b bs =
    let t = pick_bucket (length p + 1) (b ∷ bs) in
    elim (Bool-cases (eqb t 0)) [
      | inl none_fits ↦
          inr (rw none_fits, pick_bucket-TooSmall (length p) (b ∷ bs) ((eqb_iff t 0).0 none_fits))
      | inr fits ↦
          let picked : Picks (length p + 1) (b ∷ bs) t =
            pick_bucket-Picks (length p) (b ∷ bs) (ground arith) in
          let k : ℕ = t - length p - 1 in
          let e = fill_lem p t (omega (arith, Picks-le picked)) in
          let size : suc (length p) + k ≡ t = omega (arith, Picks-le picked) in
          inl (
            fill p t,
            rw fits,
            subst (Picks (length p + 1) (b ∷ bs))
                (sym (ap length e ∙ length-padded_with p k ∙ size)) picked,
            rw e (strip-padded_with p k),
          )
    ]
