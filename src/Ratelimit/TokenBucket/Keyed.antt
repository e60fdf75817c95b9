-- ===== src/Ratelimit/TokenBucket/Keyed.antt =====
-- core/src/ratelimit/token_bucket.cpp: the buckets of the keys, and the eviction of full ones.
use fin_bit.Prelude.{
  ℕ, ◌+◌, ◌-◌, ◌*◌, ◌≤◌, ◌≡◌, refl, sym, ap, ◌∙◌, List, [], ◌∷◌, Option, none, some, true, false,
  Bytes, ◌==◌, ==_iff, nat_eq, list_eq, ltb, if◌then◌else◌, arith, Bool-cases, inl, inr,
}
use fin_bit.Prelude.Dict.{lookup, Distinct}
use fin_bit.Ratelimit.TokenBucket.{
  TokenBucket, KeyedLimiter, giga, full_level, new_bucket, refill, try_consume, bucket_of, is_full,
  evict_each, evict_full,
}

try_consume_zero : (now : ℕ) (b : TokenBucket) → try_consume now 0 b ≡ (true, refill now b)
unfolding try_consume
try_consume_zero now b =
    let enough : ltb (refill now b).level (0 * giga) ≡ false = ground arith in
    let nothing : (refill now b).level - 0 * giga ≡ (refill now b).level = omega arith in
    rw (enough, try_consume) (ap (λ (n : ℕ). (true, record (refill now b) { level = n })) nothing)

-- What is left of a bucket.
abbrev left_of : ℕ → Option TokenBucket → Option TokenBucket
left_of now none = none
left_of now (some b) = if is_full (refill now b) then none else some (refill now b)

lookup-evict_each :
    (now : ℕ) (key : Bytes) (buckets : List (Bytes × TokenBucket))
    → Distinct buckets
    → lookup key (evict_each now buckets) ≡ left_of now (lookup key buckets)
unfolding lookup evict_each
lookup-evict_each now key [] d = refl
lookup-evict_each now key ((k, b) ∷ buckets) d =
    let ih = lookup-evict_each now key buckets d.1 in
    rw (try_consume_zero now b) (elim (Bool-cases (k == key)) [
      | inl mine ↦
          let e = (==_iff k key).0 mine in
          let gone : lookup key buckets ≡ none = rw (← e) d.0 in
          elim (Bool-cases (is_full (refill now b))) [
            | inl full ↦ rw mine (rw full (ih ∙ rw gone refl))
            | inr used ↦ rw mine (rw used (rw mine refl))
          ]
      | inr other ↦ elim (Bool-cases (is_full (refill now b))) [
        | inl full ↦ rw other (rw full ih)
        | inr used ↦ rw other (rw used (rw other ih))
      ]
    ])

refill-burst : (now : ℕ) (b : TokenBucket) → (refill now b).burst ≡ b.burst
unfolding refill
refill-burst now b = ground arith

is_full-le :
    (b : TokenBucket) (burst : ℕ)
    → b.burst ≡ burst
    → is_full b ≡ true
    → full_level burst ≤ b.level + giga
unfolding is_full
is_full-le b burst same full =
    let e : full_level b.burst ≡ full_level burst = ap full_level same in
    let le : full_level b.burst ≤ b.level + giga = ground arith in omega (arith, e, le)

-- A key whose bucket is evicted gets at most one byte more than it had, and no key gets less, if
-- the limiter's buckets have distinct keys, and this one has the limiter's rate and burst and is no
-- fuller than that.
pub evict_full-level :
    (now : ℕ) (key : Bytes) (b : TokenBucket) (l : KeyedLimiter)
    → Distinct l.buckets
    → lookup key l.buckets ≡ some b
    → b.burst ≡ l.burst
    → (refill now b).level ≤ full_level b.burst
    → ((bucket_of now key (evict_full now l)).level ≤ (refill now b).level + giga)
      × ((refill now b).level ≤ (bucket_of now key (evict_full now l)).level)
unfolding evict_full bucket_of new_bucket
evict_full-level now key b l d found same capped =
    let after = lookup-evict_each now key l.buckets d in
    elim (Bool-cases (is_full (refill now b))) [
      | inl full ↦
          let gone : lookup key (evict_each now l.buckets) ≡ none =
            after ∙ rw found (rw full refl) in
          let same_full : full_level l.burst ≡ full_level b.burst = ap full_level (sym same) in
          let near : full_level b.burst ≤ (refill now b).level + giga =
            is_full-le (refill now b) b.burst (refill-burst now b) full in
          rw (gone, bucket_of, new_bucket)
            (omega (arith, same_full, near), omega (arith, same_full))
      | inr used ↦
          let kept : lookup key (evict_each now l.buckets) ≡ some (refill now b) =
            after ∙ rw found (rw used refl) in
          rw (kept, bucket_of) (omega arith, omega arith)
    ]
