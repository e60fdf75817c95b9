-- ===== src/Ratelimit/TokenBucket/Tests.antt =====
-- A bucket of 1000 bytes per second and a burst of 500 bytes.
use fin_bit.Prelude.{◌≡◌, refl, [], ◌∷◌, true, false, nat_eq, list_eq, arith}
use fin_bit.Ratelimit.TokenBucket.{TokenBucket, new_bucket, refill, try_consume}
use fin_bit.Ratelimit.TokenBucket.Bounds as Bounds
use fin_bit.Ratelimit.TokenBucket.Bounds.{Requests, after_requests}

abbrev requests : Requests
requests = (5, 400) ∷ (6, 400) ∷ (400000000, 300) ∷ []

try_consume_over_burst_example :
    (try_consume 900000000000 501 (after_requests requests (new_bucket 5 1000 500))).0 ≡ false
try_consume_over_burst_example =
    Bounds.try_consume_over_burst 5 1000 500 requests 900000000000 501 (omega arith) (omega arith)

burst_granted :
    (try_consume 900000000000 500 (after_requests requests (new_bucket 5 1000 500))).0 ≡ true
unfolding after_requests try_consume refill new_bucket
burst_granted = refl

abbrev empty_bucket : TokenBucket
empty_bucket = record { rate = 1000; burst = 500; level = 1; last_refill = 5 }
