-- ===== src/Identity/UsernameLog/Replicas.antt =====
-- core/src/identity/username_log.cpp: two replicas that were offered the same claims.
use fin_bit.Prelude.{
  c_str, ℕ, ◌≡◌, refl, ap, ◌∙◌, List, [], ◌∷◌, ◌++◌, none, Bool, true, false, ◌&&◌, Bytes, ◌==◌,
  ==_iff, nat_eq, list_eq, eqb, if◌then◌else◌, arith, Bool-cases, ◌⊎◌, inl, inr,
}
use fin_bit.Identity.UsernameLog.{
  Claim, Log, accepted, already_known, is_name_byte, are_name_bytes, is_valid_username, is_known,
  check_claim, append_claim,
}
use fin_bit.Identity.UsernameLog.Resolving.{In}

c_str_name : (name : Bytes) → are_name_bytes name ≡ true → c_str name ≡ name
unfolding c_str are_name_bytes is_name_byte
c_str_name [] h = refl
c_str_name (c ∷ cs) h =
    let named : is_name_byte c ≡ true = ground arith in
    let nonzero : (c == 0) ≡ false = ground arith in
    rw nonzero (ap (◌∷◌ c) (c_str_name cs (ground arith)))

-- A claim that is offered, and the two clocks of `append_claim`.
pub record Offer : Type 0 where
  pub clock : ℕ
  pub now_ms : ℕ
  pub claim : Claim

abbrev pub now_of : Offer → ℕ
now_of o = if eqb o.now_ms 0 then o.clock else o.now_ms

In-snoc : (c d : Claim) (log : Log) → In c log ⊎ (d ≡ c) → In c (log ++ d ∷ [])
In-snoc c d [] (inl m) = absurd m
In-snoc c d [] (inr e) = inl e
In-snoc c d (r ∷ log) (inl (inl e)) = inl e
In-snoc c d (r ∷ log) (inl (inr m)) = inr (In-snoc c d log (inl m))
In-snoc c d (r ∷ log) (inr e) = inr (In-snoc c d log (inr e))

In-snoc_inv : (c d : Claim) (log : Log) → In c (log ++ d ∷ []) → In c log ⊎ (d ≡ c)
In-snoc_inv c d [] (inl e) = inr e
In-snoc_inv c d [] (inr m) = absurd m
In-snoc_inv c d (r ∷ log) (inl e) = inl (inl e)
In-snoc_inv c d (r ∷ log) (inr m) = elim (In-snoc_inv c d log m) [
  | inl m' ↦ inl (inr m')
  | inr e ↦ inr e
]

is_known-In :
    (name pubkey : Bytes) (log : Log)
    → is_known name pubkey log ≡ true
    → (r : Claim) × In r log × (r.username ≡ name) × (r.pubkey ≡ pubkey)
unfolding is_known
is_known-In name pubkey [] h = absurd (ground arith)
is_known-In name pubkey (r ∷ log) h = elim (Bool-cases (r.username == name && r.pubkey == pubkey)) [
  | inl mine ↦
      (r, inl refl, ground (arith, ==_iff r.username name), ground (arith, ==_iff r.pubkey pubkey))
  | inr other ↦ let (q, m, e, e') = is_known-In name pubkey log (ground arith) in (q, inr m, e, e')
]

-- Two claims of one key for one name are the same claim.
abbrev pub OneEach : (Claim → Type 0) → Type 0
OneEach P = (c d : Claim) → P c → P d → c.username ≡ d.username → c.pubkey ≡ d.pubkey → c ≡ d

module _ (verify : Bytes → Bytes → Bytes → Bool) where
  -- The claim passes the checks when it is offered.
  abbrev pub IsGood : Offer → Type 0
  IsGood o = check_claim verify (now_of o) o.claim ≡ none

  abbrev pub AreGood : List Offer → Type 0
  AreGood [] = Unit
  AreGood (o ∷ os) = IsGood o × AreGood os

  abbrev pub Offered : Claim → List Offer → Type 0
  Offered c [] = ⊥
  Offered c (o ∷ os) = (o.claim ≡ c) ⊎ Offered c os

  abbrev pub append_all : List Offer → Log → Log
  append_all [] log = log
  append_all (o ∷ os) log = append_all os (append_claim verify o.clock o.now_ms o.claim log).1

  good_name :
      (now : ℕ) (c : Claim) → check_claim verify now c ≡ none → c_str c.username ≡ c.username
  unfolding check_claim is_valid_username
  good_name now c h =
      let valid : are_name_bytes c.username ≡ true = ground arith in c_str_name c.username valid

  -- What becomes of a good claim.
  pub append_good :
      (o : Offer) (log : Log)
      → IsGood o
      → append_claim verify o.clock o.now_ms o.claim log ≡ (
          if is_known o.claim.username o.claim.pubkey log
          then (already_known, log)
          else (accepted, log ++ o.claim ∷ []))
  unfolding append_claim
  append_good o log good =
      let name = good_name (now_of o) o.claim good in
      rw (good, append_claim)
        (ap
          (λ (n : Bytes).
            if is_known n o.claim.pubkey log
            then (already_known, log)
            else (accepted, log ++ record o.claim { username = n } ∷ []))
          name)

  append_all-keep :
      (os : List Offer) (log : Log) (c : Claim) → AreGood os → In c log → In c (append_all os log)
  append_all-keep [] log c good m = m
  append_all-keep (o ∷ os) log c (good, goods) m =
      rw (append_good o log good)
        (elim (Bool-cases (is_known o.claim.username o.claim.pubkey log)) [
          | inl old ↦ rw old (append_all-keep os log c goods m)
          | inr new ↦
              rw new
                (append_all-keep os (log ++ o.claim ∷ []) c goods (In-snoc c o.claim log (inl m)))
        ])

  pub append_all_sound :
      (os : List Offer) (log : Log) (c : Claim)
      → AreGood os
      → In c (append_all os log)
      → In c log ⊎ Offered c os
  append_all_sound [] log c good m = inl m
  append_all_sound (o ∷ os) log c (good, goods) m =
      let m' = rw (append_good o log good) at m in
      elim (Bool-cases (is_known o.claim.username o.claim.pubkey log)) [
        | inl old ↦ elim (append_all_sound os log c goods (rw old at m')) [
          | inl here ↦ inl here
          | inr later ↦ inr (inr later)
        ]
        | inr new ↦ elim (append_all_sound os (log ++ o.claim ∷ []) c goods (rw new at m')) [
          | inl there ↦ elim (In-snoc_inv c o.claim log there) [
            | inl here ↦ inl here
            | inr e ↦ inr (inl e)
          ]
          | inr later ↦ inr (inr later)
        ]
      ]

  pub append_all-Offered :
      (P : Claim → Type 0) (os : List Offer) (log : Log) (c : Claim)
      → AreGood os
      → OneEach P
      → ((d : Claim) → Offered d os → P d)
      → ((d : Claim) → In d log → P d)
      → Offered c os
      → In c (append_all os log)
  append_all-Offered P [] log c good one os_P log_P off = absurd off
  append_all-Offered P (o ∷ os) log c (good, goods) one os_P log_P off =
      rw (append_good o log good)
        (elim (Bool-cases (is_known o.claim.username o.claim.pubkey log)) [
          | inl old ↦ rw old (elim off [
            | inl e ↦
                let (r, m, e1, e2) = is_known-In o.claim.username o.claim.pubkey log old in
                let same = one r o.claim (log_P r m) (os_P o.claim (inl refl)) e1 e2 in
                append_all-keep os log c goods (rw (← (same ∙ e)) m)
            | inr later ↦
                append_all-Offered P os log c goods one (λ d m. os_P d (inr m)) log_P later
          ])
          | inr new ↦ rw new (elim off [
            | inl e ↦
                append_all-keep os (log ++ o.claim ∷ []) c goods (In-snoc c o.claim log (inr e))
            | inr later ↦
                append_all-Offered P os (log ++ o.claim ∷ []) c goods one (λ d m. os_P d (inr m))
                  (λ d m. elim (In-snoc_inv d o.claim log m) [
                    | inl here ↦ log_P d here
                    | inr e ↦ rw (← e) (os_P o.claim (inl refl))
                  ])
                  later
          ])
        ])
