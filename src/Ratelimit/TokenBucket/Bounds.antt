-- ===== src/Ratelimit/TokenBucket/Bounds.antt =====
-- core/src/ratelimit/token_bucket.cpp: what a bucket refuses and what it grants in the end.
use fin_bit.Prelude.{ℕ, ◌*◌, ◌^◌, ◌≤◌, ◌<◌, ◌≡◌, refl, List, [], ◌∷◌, true, false, ltb, arith}
use fin_bit.Ratelimit.TokenBucket.{TokenBucket, giga, full_level, new_bucket, refill, try_consume}

-- Requests: the time and the number of bytes.
abbrev pub Requests : Type 0
Requests = List (ℕ × ℕ)

-- The bucket after the requests, granted or not.
unfoldable pub after_requests : Requests → TokenBucket → TokenBucket
after_requests [] b = b
after_requests ((now, bytes) ∷ requests) b = after_requests requests (try_consume now bytes b).1

-- The bucket has this burst, and is not fuller.
abbrev IsWithin : ℕ → TokenBucket → Type 0
IsWithin burst b = (b.burst ≡ burst) × (b.level ≤ full_level burst)

refill-IsWithin :
    (burst now : ℕ) (b : TokenBucket) → IsWithin burst b → IsWithin burst (refill now b)
unfolding refill
refill-IsWithin burst now b (same, capped) = (ground (arith, same), ground (arith, same, capped))

try_consume-IsWithin :
    (burst now bytes : ℕ) (b : TokenBucket)
    → IsWithin burst b
    → IsWithin burst (try_consume now bytes b).1
unfolding try_consume
try_consume-IsWithin burst now bytes b within =
    let r = refill-IsWithin burst now b within in (ground (arith, r.0), ground (arith, r.1))

after_requests-IsWithin :
    (burst : ℕ) (requests : Requests) (b : TokenBucket)
    → IsWithin burst b
    → IsWithin burst (after_requests requests b)
unfolding after_requests
after_requests-IsWithin burst [] b within = within
after_requests-IsWithin burst ((now, bytes) ∷ requests) b within =
    after_requests-IsWithin burst requests (try_consume now bytes b).1
      (try_consume-IsWithin burst now bytes b within)

-- However long a bucket has filled, and whatever was requested of it before, it never grants a
-- request of more bytes than its burst, if the request is at most 2^53 bytes, up to which every
-- number of bytes is a `double`.
pub try_consume_over_burst :
    (start rate burst : ℕ) (past : Requests) (now bytes : ℕ)
    → burst < bytes
    → bytes ≤ 2 ^ 53
    → (try_consume now bytes (after_requests past (new_bucket start rate burst))).0 ≡ false
unfolding try_consume new_bucket
try_consume_over_burst start rate burst past now bytes over exact =
    let b = after_requests past (new_bucket start rate burst) in
    let within =
      refill-IsWithin burst now b
        (after_requests-IsWithin burst past (new_bucket start rate burst) (refl, omega arith)) in
    let short : ltb (refill now b).level (bytes * giga) ≡ true = ground (arith, within.1) in
    rw (short, try_consume) refl
