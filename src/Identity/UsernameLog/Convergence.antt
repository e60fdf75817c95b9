-- ===== src/Identity/UsernameLog/Convergence.antt =====
-- core/src/identity/username_log.cpp: when replicas agree on the owner of a name, and when not.
use fin_bit.Prelude.{
  c_str, ◌<◌, ◌^◌, ◌≡◌, ◌≢◌, refl, sym, ap, ◌∙◌, List, [], ◌∷◌, Option, none, some, Bool, true,
  false, Bytes, ==_iff, ==_refl, nat_eq, list_eq, arith, ◌⊎◌, inl, inr,
}
use fin_bit.Identity.UsernameLog.{
  int64_less, Claim, Log, is_known, before, winner, resolve, append_claim,
}
use fin_bit.Identity.UsernameLog.Resolving.{
  In, Wins, unclaimed, earliest, winner-Wins, before_total,
}
use fin_bit.Identity.UsernameLog.Replicas.{
  Offer, OneEach, AreGood, Offered, append_all, append_good, append_all_sound, append_all-Offered,
}

-- No claim of one name has the time and the signature of another key's.
abbrev pub NoTie : (Claim → Type 0) → Type 0
NoTie P =
    (c d : Claim)
    → P c
    → P d
    → c.username ≡ d.username
    → c.timestamp_ms ≡ d.timestamp_ms
    → c.signature ≡ d.signature
    → c.pubkey ≡ d.pubkey

Wins-agree :
    (P : Claim → Type 0) (name : Bytes) (log log' : Log) (o o' : Option Claim)
    → OneEach P
    → NoTie P
    → ((c : Claim) → In c log → P c)
    → ((c : Claim) → In c log → In c log')
    → ((c : Claim) → In c log' → In c log)
    → Wins name log o
    → Wins name log' o'
    → o ≡ o'
Wins-agree P name log log' none none one no_tie is_P to from w w' = refl
Wins-agree P name log log' none (some d) one no_tie is_P to from (unclaimed no_one)
      (earliest _ m e least) =
    absurd (no_one d (from d m) e)
Wins-agree P name log log' (some c) none one no_tie is_P to from (earliest _ m e least)
      (unclaimed no_one) =
    absurd (no_one c (to c m) e)
Wins-agree P name log log' (some c) (some d) one no_tie is_P to from (earliest _ m e least)
      (earliest _ m' e' least') =
    let (time, sig) = before_total c d (least' c (to c m) e) (least d (from d m') e') in
    let same_name = e ∙ sym e' in
    ap some (
      one c d (is_P c m) (is_P d (from d m')) same_name
        (no_tie c d (is_P c m) (is_P d (from d m')) same_name time sig))

module _ (verify : Bytes → Bytes → Bytes → Bool) where
  abbrev pub log_of : List Offer → Log
  log_of os = append_all verify os []

  in_offers : (c : Claim) (os : List Offer) → ⊥ ⊎ Offered verify c os → Offered verify c os
  in_offers c os (inl no_claim) = absurd no_claim
  in_offers c os (inr m) = m

  -- Two replicas that were offered the same good claims, in any order and as often as one likes, give
  -- the same owner of every name, if no key has signed two claims for one name and no two claims of
  -- a name have the time and the signature in common.
  pub resolve-agree :
      (xs ys : List Offer) (name : Bytes)
      → AreGood verify xs
      → AreGood verify ys
      → ((c : Claim) → Offered verify c xs → Offered verify c ys)
      → ((c : Claim) → Offered verify c ys → Offered verify c xs)
      → OneEach (λ c. Offered verify c xs)
      → NoTie (λ c. Offered verify c xs)
      → resolve name (log_of xs) ≡ resolve name (log_of ys)
  unfolding resolve
  resolve-agree xs ys name good_xs good_ys to from one no_tie =
      let P : Claim → Type 0 = λ c. Offered verify c xs in
      let sound_xs = λ (c : Claim) (m : In c (log_of xs)).
        in_offers c xs (append_all_sound verify xs [] c good_xs m) in
      let sound_ys = λ (c : Claim) (m : In c (log_of ys)).
        in_offers c ys (append_all_sound verify ys [] c good_ys m) in
      let same : winner (c_str name) (log_of xs) ≡ winner (c_str name) (log_of ys) =
        Wins-agree P (c_str name) (log_of xs) (log_of ys) (winner (c_str name) (log_of xs))
          (winner (c_str name) (log_of ys)) one no_tie sound_xs
          (λ c m.
            append_all-Offered verify P ys [] c good_ys one from (λ d n. absurd n)
              (to c (sound_xs c m)))
          (λ c m.
            append_all-Offered verify P xs [] c good_xs one (λ d n. n) (λ d n. absurd n)
              (from c (sound_ys c m)))
          (winner-Wins (c_str name) (log_of xs)) (winner-Wins (c_str name) (log_of ys)) in
      rw (same, resolve) refl

  -- The second of two claims of a key for a name is dropped, and the claim of another key is kept.
  append_all_three :
      (first second rival : Offer)
      → AreGood verify (first ∷ second ∷ rival ∷ [])
      → first.claim.username ≡ second.claim.username
      → first.claim.pubkey ≡ second.claim.pubkey
      → first.claim.pubkey ≢ rival.claim.pubkey
      → append_all verify (first ∷ second ∷ rival ∷ []) [] ≡ first.claim ∷ rival.claim ∷ []
  unfolding is_known
  append_all_three first second rival (g1, (g2, (g3, _))) name key differ =
      let old : is_known second.claim.username second.claim.pubkey (first.claim ∷ []) ≡ true =
        ground (
          arith,
          ==_iff first.claim.username second.claim.username,
          ==_iff first.claim.pubkey second.claim.pubkey,
        ) in
      let new : is_known rival.claim.username rival.claim.pubkey (first.claim ∷ []) ≡ false =
        ground (arith, ==_iff first.claim.pubkey rival.claim.pubkey) in
      let step = λ (o : Offer) (log : Log). (append_claim verify o.clock o.now_ms o.claim log).1 in
      let one : step first [] ≡ first.claim ∷ [] = rw (append_good verify first [] g1) refl in
      let two : step second (first.claim ∷ []) ≡ first.claim ∷ [] =
        rw (append_good verify second (first.claim ∷ []) g2) (rw old refl) in
      let three : step rival (first.claim ∷ []) ≡ first.claim ∷ rival.claim ∷ [] =
        rw (append_good verify rival (first.claim ∷ []) g3) (rw new refl) in
      ap (λ (log : Log). step rival (step second log)) one ∙ ap (step rival) two ∙ three

  -- Where a key has signed two claims for one name, and another key has claimed the name in between,
  -- the owner depends on which of the two came first: the earlier claim does not replace the later
  -- one. The times are below 2^63.
  pub resolve_depends_on_order :
      (early late : Offer) (rival : Offer)
      → AreGood verify (early ∷ late ∷ rival ∷ [])
      → early.claim.username ≡ late.claim.username
      → rival.claim.username ≡ late.claim.username
      → early.claim.pubkey ≡ late.claim.pubkey
      → rival.claim.pubkey ≢ late.claim.pubkey
      → early.claim.timestamp_ms < rival.claim.timestamp_ms
      → rival.claim.timestamp_ms < late.claim.timestamp_ms
      → late.claim.timestamp_ms < 2 ^ 63
      → (winner late.claim.username (log_of (early ∷ late ∷ rival ∷ [])) ≡ some early.claim)
        × (winner late.claim.username (log_of (late ∷ early ∷ rival ∷ [])) ≡ some rival.claim)
  unfolding winner before int64_less
  resolve_depends_on_order early late rival (g1, (g2, (g3, _))) n1 n2 k1 k2 t1 t2 t3 =
      let one =
        append_all_three early late rival (g1, (g2, (g3, tt))) n1 k1 (λ e. k2 (sym e ∙ k1)) in
      let other =
        append_all_three late early rival (g2, (g1, (g3, tt))) (sym n1) (sym k1)
          (λ e. k2 (sym e)) in
      (
        rw one (
            ground (
              arith,
              ==_iff early.claim.username late.claim.username,
              ==_iff rival.claim.username late.claim.username,
            )),
        rw other (
            ground (
              arith,
              ==_refl late.claim.username,
              ==_iff rival.claim.username late.claim.username,
            )),
      )
