-- ===== src/Ratelimit/TokenBucket.antt =====
-- core/src/ratelimit/token_bucket.cpp. Tokens are bytes, kept by the source in a `double`, and times
-- are nanoseconds. Here they are exact: `level` counts billionths of a byte, plus one, so that the
-- tolerance of 1e-9 byte in `try_consume` leaves it a natural number. The rounding of the floating
-- point is not modelled. The steady clock is an argument.
use fin_bit.Prelude.{
  ℕ, ◌+◌, ◌-◌, ◌*◌, ◌^◌, min, List, [], ◌∷◌, Option, none, some, Bool, true, false, not, Bytes, Eq,
  ◌==◌, nat_eq, list_eq, length, ltb, leb, if◌then◌else◌,
}
use fin_bit.Prelude.Dict.{lookup, insert}
pub mod Bounds
pub mod Keyed
mod Tests

abbrev pub giga : ℕ
giga = 1000000000

pub record TokenBucket : Type 0 where
  pub rate : ℕ
  pub burst : ℕ
  pub level : ℕ
  pub last_refill : ℕ

-- `burst_` tokens.
abbrev pub full_level : ℕ → ℕ
full_level burst = burst * giga + 1

unfoldable pub new_bucket : ℕ → ℕ → ℕ → TokenBucket
new_bucket now rate burst = record {
  rate = rate;
  burst = burst;
  level = full_level burst;
  last_refill = now;
}

unfoldable pub refill : ℕ → TokenBucket → TokenBucket
refill now b = if leb now b.last_refill then b else record b {
  level = min (b.level + b.rate * (now - b.last_refill)) (full_level b.burst);
  last_refill = now;
}

-- `tokens_ + 1e-9 < bytes`
unfoldable pub try_consume : ℕ → ℕ → TokenBucket → Bool × TokenBucket
unfolding refill
try_consume now bytes b =
    let b' = refill now b in
    if ltb b'.level (bytes * giga)
    then (false, b')
    else (true, record b' { level = b'.level - bytes * giga })

pub record KeyedLimiter : Type 0 where
  pub rate : ℕ
  pub burst : ℕ
  pub buckets : List (Bytes × TokenBucket)

unfoldable pub new_limiter : ℕ → ℕ → KeyedLimiter
new_limiter rate burst = record { rate = rate; burst = burst; buckets = [] }

-- The bucket of a key, a new one if it has none.
unfoldable pub bucket_of : ℕ → Bytes → KeyedLimiter → TokenBucket
unfolding new_bucket
bucket_of now key l = elim (lookup key l.buckets) [
  | some b ↦ b
  | none ↦ new_bucket now l.rate l.burst
]

unfoldable pub try_consume_key : ℕ → Bytes → ℕ → KeyedLimiter → Bool × KeyedLimiter
unfolding bucket_of try_consume
try_consume_key now key bytes l =
    let (granted, b) = try_consume now bytes (bucket_of now key l) in
    (granted, record l { buckets = insert key b l.buckets })

-- `tokens() >= burst_ - 1.0`, after a refill.
unfoldable pub is_full : TokenBucket → Bool
is_full b = leb (full_level b.burst) (b.level + giga)

unfoldable pub evict_each : ℕ → List (Bytes × TokenBucket) → List (Bytes × TokenBucket)
unfolding try_consume is_full
evict_each now [] = []
evict_each now ((key, b) ∷ buckets) =
    let (granted, b') = try_consume now 0 b in
    let rest = evict_each now buckets in
    if granted then (if is_full b' then rest else (key, b') ∷ rest) else (key, b') ∷ rest

unfoldable pub evict_full : ℕ → KeyedLimiter → KeyedLimiter
unfolding evict_each
evict_full now l = record l { buckets = evict_each now l.buckets }

unfoldable pub tracked_keys : KeyedLimiter → ℕ
tracked_keys l = length l.buckets
