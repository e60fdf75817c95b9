-- ===== src/Identity/UsernameGossip/Paging.antt =====
-- core/src/identity/username_gossip.cpp: what a page leaves for the next request.
use fin_bit.Prelude.{
  ℕ, zero, suc, ◌+◌, ◌-◌, ◌^◌, ◌<◌, ◌≤◌, ◌≡◌, ◌≢◌, refl, sym, ap, ◌∙◌, [], ◌∷◌, ◌++◌, Bool, true,
  false, length, take, drop, length-take, take-append-drop, length-drop, ltb, if◌then◌else◌, arith,
  Bool-cases, inl, inr,
}
use fin_bit.Identity.UsernameLog.{
  Claim, Log, int64_less, insert_by_time, sort_by_time, newer, claims_since,
}
use fin_bit.Identity.UsernameGossip.{response, max_seen, want_max, answer}

newer-insert_by_time :
    (t : ℕ) (r : Claim) (log : Log)
    → newer t (insert_by_time r log)
      ≡ (if int64_less t r.timestamp_ms then insert_by_time r (newer t log) else newer t log)
unfolding newer insert_by_time
newer-insert_by_time t r [] = ground arith
newer-insert_by_time t r (q ∷ log) = ground (arith, newer-insert_by_time t r log)

newer-sort_by_time : (t : ℕ) (log : Log) → newer t (sort_by_time log) ≡ sort_by_time (newer t log)
unfolding newer sort_by_time
newer-sort_by_time t [] = refl
newer-sort_by_time t (r ∷ log) =
    newer-insert_by_time t r (sort_by_time log)
    ∙ rw (newer-sort_by_time t log) (elim (Bool-cases (int64_less t r.timestamp_ms)) [
      | inl new ↦ rw new refl
      | inr old ↦ rw old refl
    ])

int64_less-positive : (a b : ℕ) → a < 2 ^ 63 → b < 2 ^ 63 → int64_less a b ≡ ltb a b
unfolding int64_less
int64_less-positive a b ha hb = ground arith

-- What is later than a time that is not negative is not negative.
int64_less-later : (a b : ℕ) → a < 2 ^ 63 → int64_less a b ≡ true → (a < b) × (b < 2 ^ 63)
unfolding int64_less
int64_less-later a b ha h = ground arith

int64_less-implies :
    (s t b : ℕ) → s ≤ t → t < 2 ^ 63 → int64_less s b ≡ false → int64_less t b ≡ false
unfolding int64_less
int64_less-implies s t b le ht h = ground arith

newer-newer : (s t : ℕ) (log : Log) → s ≤ t → t < 2 ^ 63 → newer t (newer s log) ≡ newer t log
unfolding newer
newer-newer s t [] le ht = refl
newer-newer s t (r ∷ log) le ht =
    ground (arith, newer-newer s t log le ht, int64_less-implies s t r.timestamp_ms le ht)

-- Every time is later than the one before, the first than `low`, and not negative.
abbrev Rising : ℕ → Log → Type 0
Rising low [] = Unit
Rising low (r ∷ log) =
    (low < r.timestamp_ms) × (r.timestamp_ms < 2 ^ 63) × Rising r.timestamp_ms log

abbrev Apart : ℕ → Log → Type 0
Apart t [] = Unit
Apart t (r ∷ log) = (t ≢ r.timestamp_ms) × Apart t log

-- No two claims have the same time.
abbrev pub HasDistinctTimes : Log → Type 0
HasDistinctTimes [] = Unit
HasDistinctTimes (r ∷ log) = Apart r.timestamp_ms log × HasDistinctTimes log

Apart-newer : (t s : ℕ) (log : Log) → Apart t log → Apart t (newer s log)
unfolding newer
Apart-newer t s [] a = a
Apart-newer t s (r ∷ log) (differ, a) = elim (Bool-cases (int64_less s r.timestamp_ms)) [
  | inl new ↦ rw new (differ, Apart-newer t s log a)
  | inr old ↦ rw old (Apart-newer t s log a)
]

Apart-insert_by_time :
    (t : ℕ) (r : Claim) (log : Log)
    → t ≢ r.timestamp_ms
    → Apart t log
    → Apart t (insert_by_time r log)
unfolding insert_by_time
Apart-insert_by_time t r [] differ a = (differ, a)
Apart-insert_by_time t r (q ∷ log) differ a =
    elim (Bool-cases (int64_less q.timestamp_ms r.timestamp_ms)) [
      | inl later ↦ rw later (a.0, Apart-insert_by_time t r log differ a.1)
      | inr here ↦ rw here (differ, a)
    ]

Apart-sort_by_time : (t : ℕ) (log : Log) → Apart t log → Apart t (sort_by_time log)
unfolding sort_by_time
Apart-sort_by_time t [] a = a
Apart-sort_by_time t (r ∷ log) a =
    Apart-insert_by_time t r (sort_by_time log) a.0 (Apart-sort_by_time t log a.1)

Rising-insert_by_time :
    (low : ℕ) (r : Claim) (log : Log)
    → low < r.timestamp_ms
    → r.timestamp_ms < 2 ^ 63
    → Apart r.timestamp_ms log
    → Rising low log
    → Rising low (insert_by_time r log)
unfolding insert_by_time
Rising-insert_by_time low r [] lt small a up = (lt, small, tt)
Rising-insert_by_time low r (q ∷ log) lt small a up =
    let order = int64_less-positive q.timestamp_ms r.timestamp_ms up.1 small in
    elim (Bool-cases (int64_less q.timestamp_ms r.timestamp_ms)) [
      | inl later ↦ rw later (
        up.0,
        up.1,
        Rising-insert_by_time q.timestamp_ms r log (ground (arith, order)) small a.1 up.2,
      )
      | inr here ↦ rw here (lt, small, (ground (arith, order), up.1, up.2))
    ]

sort_by_time-Rising :
    (low : ℕ) (log : Log)
    → low < 2 ^ 63
    → HasDistinctTimes log
    → Rising low (sort_by_time (newer low log))
unfolding sort_by_time newer
sort_by_time-Rising low [] h d = tt
sort_by_time-Rising low (r ∷ log) h d = elim (Bool-cases (int64_less low r.timestamp_ms)) [
  | inr old ↦ rw old (sort_by_time-Rising low log h d.1)
  | inl new ↦ rw new (
      Rising-insert_by_time low r (sort_by_time (newer low log))
        (int64_less-later low r.timestamp_ms h new).0 (int64_less-later low r.timestamp_ms h new).1
        (Apart-sort_by_time r.timestamp_ms (newer low log) (Apart-newer r.timestamp_ms low log d.0))
        (sort_by_time-Rising low log h d.1))
]

newer-Rising : (t low : ℕ) (log : Log) → t ≤ low → t < 2 ^ 63 → Rising low log → newer t log ≡ log
unfolding newer
newer-Rising t low [] le ht up = refl
newer-Rising t low (r ∷ log) le ht up =
    let new : int64_less t r.timestamp_ms ≡ true =
      int64_less-positive t r.timestamp_ms ht up.1 ∙ ground arith in
    rw new (ap (◌∷◌ r) (newer-Rising t r.timestamp_ms log (omega arith) ht up.2))

max_seen-ge : (seen : ℕ) (cs : Log) → seen ≤ max_seen seen cs
unfolding max_seen
max_seen-ge seen [] = omega arith
max_seen-ge seen (c ∷ cs) =
    ground (arith, max_seen-ge (if ltb seen c.timestamp_ms then c.timestamp_ms else seen) cs)

max_seen-lt :
    (n low : ℕ) (log : Log) → low < 2 ^ 63 → Rising low log → max_seen low (take n log) < 2 ^ 63
unfolding max_seen
max_seen-lt zero low log h up = h
max_seen-lt (suc n) low [] h up = h
max_seen-lt (suc n) low (r ∷ log) h up =
    let more : ltb low r.timestamp_ms ≡ true = ground arith in
    rw (more, max_seen) (max_seen-lt n r.timestamp_ms log up.1 up.2)

-- What is newer than all that was sent is what was not sent.
newer-max_seen :
    (n low : ℕ) (log : Log)
    → low < 2 ^ 63
    → Rising low log
    → newer (max_seen low (take n log)) log ≡ drop n log
unfolding max_seen newer
newer-max_seen zero low log h up = newer-Rising low low log (omega arith) h up
newer-max_seen (suc n) low [] h up = refl
newer-max_seen (suc n) low (r ∷ log) h up =
    let more : ltb low r.timestamp_ms ≡ true = ground arith in
    let seen : r.timestamp_ms ≤ max_seen r.timestamp_ms (take n log) =
      max_seen-ge r.timestamp_ms (take n log) in
    let small = max_seen-lt n r.timestamp_ms log up.1 up.2 in
    let old : int64_less (max_seen r.timestamp_ms (take n log)) r.timestamp_ms ≡ false =
      int64_less-positive (max_seen r.timestamp_ms (take n log)) r.timestamp_ms small up.1
      ∙ ground arith in
    let step : max_seen low (take (suc n) (r ∷ log)) ≡ max_seen r.timestamp_ms (take n log) =
      rw (more, max_seen) refl in
    ap (λ (t : ℕ). newer t (r ∷ log)) step
    ∙ rw (old, newer) (newer-max_seen n r.timestamp_ms log up.1 up.2)

-- The rows after the page that a request gets, in the order of their times.
abbrev pub newer_sorted : ℕ → Log → Log
newer_sorted since_ms log = sort_by_time (newer since_ms log)

take-take : (n m : ℕ) (log : Log) → n ≤ m → take n (take m log) ≡ take n log
take-take zero m log le = refl
take-take (suc n) zero log le = absurd (omega arith)
take-take (suc n) (suc m) [] le = refl
take-take (suc n) (suc m) (r ∷ log) le = ap (◌∷◌ r) (take-take n m log (omega arith))

take-ge : (n : ℕ) (log : Log) → length log ≤ n → take n log ≡ log
take-ge zero [] le = refl
take-ge zero (r ∷ log) le = absurd (omega arith)
take-ge (suc n) [] le = refl
take-ge (suc n) (r ∷ log) le = ap (◌∷◌ r) (take-ge n log (omega arith))

-- The page is the front of the rows, of the wanted length.
page_of :
    (want : ℕ) (log : Log)
    → (if ltb want (length (take (want + 1) log))
        then take (length (take (want + 1) log) - 1) (take (want + 1) log)
        else take (want + 1) log)
      ≡ take want log
page_of want log = elim (Bool-cases (ltb want (length (take (want + 1) log)))) [
  | inl more ↦
      let size : length (take (want + 1) log) - 1 ≡ want =
        ground (arith, length-take (want + 1) log) in
      rw more (rw size (take-take want (want + 1) log (omega arith)))
  | inr all ↦
      let few : length log ≤ want = ground (arith, length-take (want + 1) log) in
      rw all (take-ge (want + 1) log (omega arith) ∙ sym (take-ge want log few))
]

-- If no two claims have the same time and the request asks from a time below 2^63 on, a page and
-- what a request from its `max_seen_ms` on would find are together all claims that are newer than
-- the first request asked for, in the order of their times, and the page says that it is truncated
-- exactly if something is left. The time of the next request is below 2^63 too.
pub answer-pages :
    (since_ms max_records : ℕ) (log : Log)
    → since_ms < 2 ^ 63
    → HasDistinctTimes log
    → (page : Log) × (truncated : Bool) × (seen : ℕ) × (answer since_ms max_records log
        ≡ response page truncated seen)
      × (page ++ newer_sorted seen log ≡ newer_sorted since_ms log)
      × (truncated ≡ ltb 0 (length (newer_sorted seen log)))
      × (seen < 2 ^ 63)
unfolding answer claims_since
answer-pages since_ms max_records log small distinct =
    let want = want_max max_records in
    let all = newer_sorted since_ms log in
    let page = take want all in
    let seen = max_seen since_ms page in
    let up = sort_by_time-Rising since_ms log small distinct in
    let next_small = max_seen-lt want since_ms all small up in
    let rest : newer_sorted seen log ≡ drop want all =
      ap sort_by_time (sym (newer-newer since_ms seen log (max_seen-ge since_ms page) next_small))
      ∙ sym (newer-sort_by_time seen (newer since_ms log))
      ∙ newer-max_seen want since_ms all small up in
    (
      page,
      ltb want (length (take (want + 1) all)),
      seen,
      rw (page_of want all) refl,
      rw rest (take-append-drop want all),
      rw rest (ground (arith, length-take (want + 1) all, length-drop want all)),
      next_small,
    )
