-- ===== src/Identity/UsernameLog/Resolving.antt =====
-- core/src/identity/username_log.cpp: `resolve` finds the earliest claim of a name.
use fin_bit.Prelude.{
  ◌≡◌, ◌≢◌, refl, ap, ◌∙◌, [], ◌∷◌, Option, none, some, true, false, Bytes, ◌==◌, ==_iff, nat_eq,
  list_eq, if◌then◌else◌, arith, Bool-cases, ◌⊎◌, inl, inr,
}
use fin_bit.Identity.UsernameLog.{Claim, Log, hex_less, before, winner}

hex_less_irrefl : (a : Bytes) → hex_less a a ≡ false
unfolding hex_less
hex_less_irrefl [] = refl
hex_less_irrefl (x ∷ xs) = ground (arith, hex_less_irrefl xs)

hex_less_asymm : (a b : Bytes) → hex_less a b ≡ true → hex_less b a ≡ false
unfolding hex_less
hex_less_asymm [] [] h = refl
hex_less_asymm [] (y ∷ ys) h = refl
hex_less_asymm (x ∷ xs) [] h = absurd (ground arith)
hex_less_asymm (x ∷ xs) (y ∷ ys) h = ground (arith, hex_less_asymm xs ys)

-- `a < b` is refused, `b < c` is refused: so is `a < c`.
hex_less_trans :
    (a b c : Bytes) → hex_less a b ≡ false → hex_less b c ≡ false → hex_less a c ≡ false
unfolding hex_less
hex_less_trans [] [] c h k = k
hex_less_trans [] (y ∷ ys) c h k = absurd (ground arith)
hex_less_trans (x ∷ xs) b [] h k = refl
hex_less_trans (x ∷ xs) [] (z ∷ zs) h k = absurd (ground arith)
hex_less_trans (x ∷ xs) (y ∷ ys) (z ∷ zs) h k = ground (arith, hex_less_trans xs ys zs)

hex_less_total : (a b : Bytes) → hex_less a b ≡ false → hex_less b a ≡ false → a ≡ b
unfolding hex_less
hex_less_total [] [] h k = refl
hex_less_total [] (y ∷ ys) h k = absurd (ground arith)
hex_less_total (x ∷ xs) [] h k = absurd (ground arith)
hex_less_total (x ∷ xs) (y ∷ ys) h k = ground (arith, hex_less_total xs ys)

before_irrefl : (a : Claim) → before a a ≡ false
unfolding before
before_irrefl a = ground (arith, hex_less_irrefl a.signature)

before_asymm : (a b : Claim) → before a b ≡ true → before b a ≡ false
unfolding before
before_asymm a b h = ground (arith, hex_less_asymm a.signature b.signature)

before_trans : (a b c : Claim) → before a b ≡ false → before b c ≡ false → before a c ≡ false
unfolding before
before_trans a b c h k = ground (arith, hex_less_trans a.signature b.signature c.signature)

-- Of two claims with different times or signatures one is earlier.
pub before_total :
    (a b : Claim)
    → before a b ≡ false
    → before b a ≡ false
    → (a.timestamp_ms ≡ b.timestamp_ms) × (a.signature ≡ b.signature)
unfolding before
before_total a b h k = ground (arith, hex_less_total a.signature b.signature)

abbrev pub In : Claim → Log → Type 0
In c [] = ⊥
In c (r ∷ log) = (r ≡ c) ⊎ In c log

-- The winner of a name is a claim of it than which none is earlier.
pub data Wins (name : Bytes) (log : Log) : Option Claim → Type 0 where
  unclaimed : ((c : Claim) → In c log → c.username ≢ name) → Wins name log none
  earliest :
      (w : Claim)
      → In w log
      → w.username ≡ name
      → ((c : Claim) → In c log → c.username ≡ name → before c w ≡ false)
      → Wins name log (some w)

winner-first :
    (name : Bytes) (r : Claim) (log : Log) (o : Option Claim)
    → r.username ≡ name
    → Wins name log o
    → Wins name
        (r ∷ log)
        (elim o [ none ↦ some r | some best ↦ if before best r then some best else some r ])
winner-first name r log none e (unclaimed no_one) = earliest r (inl refl) e (λ c m is_name. elim m [
  | inl same ↦ rw (← same) (before_irrefl r)
  | inr later ↦ absurd (no_one c later is_name)
])
winner-first name r log (some best) e (earliest _ m is_name least) =
    elim (Bool-cases (before best r)) [
      | inl sooner ↦ rw sooner (
          earliest best (inr m) is_name (λ c m' e'. elim m' [
            | inl same ↦ rw (← same) (before_asymm best r sooner)
            | inr later ↦ least c later e'
          ]))
      | inr later ↦ rw later (
          earliest r (inl refl) e (λ c m' e'. elim m' [
            | inl same ↦ rw (← same) (before_irrefl r)
            | inr rest ↦ before_trans c best r (least c rest e') later
          ]))
    ]

winner-other :
    (name : Bytes) (r : Claim) (log : Log) (o : Option Claim)
    → r.username ≢ name
    → Wins name log o
    → Wins name (r ∷ log) o
winner-other name r log none differ (unclaimed no_one) = unclaimed (λ c m. elim m [
  | inl same ↦ (λ e. differ (ap (λ (k : Claim). k.username) same ∙ e))
  | inr later ↦ no_one c later
])
winner-other name r log (some w) differ (earliest _ m e least) = earliest w (inr m) e (λ c m' e'.
    elim m' [
      | inl same ↦ absurd (differ (ap (λ (k : Claim). k.username) same ∙ e'))
      | inr later ↦ least c later e'
    ])

pub winner-Wins : (name : Bytes) (log : Log) → Wins name log (winner name log)
unfolding winner
winner-Wins name [] = unclaimed (λ c m e. m)
winner-Wins name (r ∷ log) = elim (Bool-cases (r.username == name)) [
  | inl mine ↦
      rw (mine, winner)
        (winner-first name r log (winner name log) ((==_iff r.username name).0 mine)
          (winner-Wins name log))
  | inr other ↦
      rw (other, winner)
        (winner-other name r log (winner name log) (λ e. ground (arith, ==_iff r.username name))
          (winner-Wins name log))
]
