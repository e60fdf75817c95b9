-- ===== src/P2P/OfflineRelay/Laws.antt =====
-- What a peer holds for a recipient.
use fin_bit.Prelude.{
  ℕ, ◌+◌, ◌≤◌, ◌<◌, ◌≡◌, ◌≢◌, refl, sym, ap, ◌∙◌, List, [], ◌∷◌, ◌++◌, none, Bytes, ◌==◌, ==_iff,
  if◌then◌else◌, nat_eq, list_eq, true, eqb, leb, length, arith, Option-cases, Bool-cases, inl, inr,
  ◌⊎◌,
}
use fin_bit.Prelude.Dict.{
  lookup, lookup_or, lookup_or-some, lookup_or-none, lookup_or-insert, lookup_or-erase, Distinct,
}
use fin_bit.P2P.OfflineRelay.{
  Blob, Store, DepositResult, accepted, rejected_format, rejected_full, max_blobs_per_recipient,
  default_blob_ttl_ms, now_ms_or, deposit, is_fresh, fresh_bytes, fetch_and_clear, prune_queue,
  prune_each, prune_expired, total_blobs,
}

-- The queue of a recipient.
abbrev pub queue : Bytes → Store → List Blob
queue recipient s = lookup_or [] recipient s

-- The blobs of a list that have not run out.
unfoldable pub fresh : ℕ → ℕ → List Blob → List Blob
fresh ttl_ms t [] = []
fresh ttl_ms t (b ∷ q) = if is_fresh ttl_ms t b then b ∷ fresh ttl_ms t q else fresh ttl_ms t q

abbrev pub payloads : List Blob → List Bytes
payloads [] = []
payloads (b ∷ q) = b.bytes ∷ payloads q

fresh_bytes-fresh :
    (t : ℕ) (q : List Blob) → fresh_bytes t q ≡ payloads (fresh default_blob_ttl_ms t q)
unfolding fresh_bytes fresh
fresh_bytes-fresh t [] = refl
fresh_bytes-fresh t (b ∷ q) = ground (arith, fresh_bytes-fresh t q)

prune_queue-fresh : (ttl_ms t : ℕ) (q : List Blob) → (prune_queue ttl_ms t q).0 ≡ fresh ttl_ms t q
unfolding prune_queue fresh
prune_queue-fresh ttl_ms t [] = refl
prune_queue-fresh ttl_ms t (b ∷ q) = ground (arith, prune_queue-fresh ttl_ms t q)

length-prune_queue :
    (ttl_ms t : ℕ) (q : List Blob)
    → length (prune_queue ttl_ms t q).0 + (prune_queue ttl_ms t q).1 ≡ length q
unfolding prune_queue
length-prune_queue ttl_ms t [] = omega arith
length-prune_queue ttl_ms t (b ∷ q) = ground (arith, length-prune_queue ttl_ms t q)

pub length-fresh-le : (ttl_ms t : ℕ) (q : List Blob) → length (fresh ttl_ms t q) ≤ length q
unfolding fresh
length-fresh-le ttl_ms t [] = omega arith
length-fresh-le ttl_ms t (b ∷ q) = ground (arith, length-fresh-le ttl_ms t q)

-- A deposit either adds one blob at the end of the recipient's queue, or changes nothing and says
-- why.
pub data Deposits (recipient payload : Bytes) (t : ℕ) (s : Store)
    : DepositResult × Store → Type 0 where
  adds :
      {s' : Store}
      → length recipient ≡ 32
      → payload ≢ []
      → length (queue recipient s) < max_blobs_per_recipient
      → ((r : Bytes)
          → queue r s' ≡ (
              if recipient == r
              then queue recipient s ++ record { bytes = payload; deposited_at_ms = t } ∷ []
              else queue r s))
      → Deposits recipient payload t s (accepted, s')
  malformed :
      (length recipient ≢ 32) ⊎ (payload ≡ []) → Deposits recipient payload t s (rejected_format, s)
  full :
      max_blobs_per_recipient ≤ length (queue recipient s)
      → Deposits recipient payload t s (rejected_full, s)

length-zero : {A : Type 0} (xs : List A) → eqb (length xs) 0 ≡ true → xs ≡ []
length-zero [] h = refl
length-zero (x ∷ xs) h = absurd (ground arith)

-- What a deposit does, on each of its four branches.
pub deposit-Deposits :
    (clock : ℕ) (recipient payload : Bytes) (now_ms : ℕ) (s : Store)
    → Deposits recipient payload
        (now_ms_or clock now_ms)
        s
        (deposit clock recipient payload now_ms s)
unfolding deposit
deposit-Deposits clock recipient payload now_ms s = elim (Bool-cases (eqb (length recipient) 32)) [
  | inr bad ↦ rw (bad, deposit) (malformed (inl (ground arith)))
  | inl good ↦ elim (Bool-cases (eqb (length payload) 0)) [
    | inl empty ↦ rw (good, empty, deposit) (malformed (inr (length-zero payload empty)))
    | inr some_bytes ↦
        elim (Bool-cases (leb max_blobs_per_recipient (length (queue recipient s)))) [
          | inl at_cap ↦ rw (good, some_bytes, at_cap, deposit) (full (ground arith))
          | inr room ↦
              rw (good, some_bytes, room, deposit)
                (adds (ground arith) (λ e. ground (arith, some_bytes, ap length e)) (ground arith)
                  (λ r. lookup_or-insert [] recipient r _ s))
        ]
  ]
]

-- A fetch of a well-formed recipient returns the payloads of its blobs that are less than a week
-- old, oldest first, and leaves its queue empty and the others as they were.
pub fetch_and_clear_lem :
    (clock : ℕ) (recipient : Bytes) (now_ms : ℕ) (s : Store)
    → length recipient ≡ 32
    → ((fetch_and_clear clock recipient now_ms s).0
        ≡ payloads (fresh default_blob_ttl_ms (now_ms_or clock now_ms) (queue recipient s)))
      × ((r : Bytes)
          → queue r (fetch_and_clear clock recipient now_ms s).1
            ≡ (if recipient == r then [] else queue r s))
unfolding fetch_and_clear fresh
fetch_and_clear_lem clock recipient now_ms s h =
    let good : eqb (length recipient) 32 ≡ true = ground arith in
    elim (Option-cases (lookup recipient s)) [
      | inl e ↦
          rw (good, fetch_and_clear)
            (rw (e, fetch_and_clear)
              (
                ap
                    (λ (q : List Blob).
                      payloads (fresh default_blob_ttl_ms (now_ms_or clock now_ms) q))
                    (sym (lookup_or-none [] recipient s e)),
                λ r. ground (arith, lookup_or-none [] recipient s e, ==_iff recipient r),
              ))
      | inr (q, e) ↦
          rw (good, fetch_and_clear)
            (rw (e, fetch_and_clear)
              (
                fresh_bytes-fresh (now_ms_or clock now_ms) q
                    ∙ ap
                        (λ (q : List Blob).
                          payloads (fresh default_blob_ttl_ms (now_ms_or clock now_ms) q))
                        (sym (lookup_or-some [] recipient s q e)),
                λ r. lookup_or-erase [] recipient r s,
              ))
    ]

pub lookup-prune_each :
    (ttl_ms t : ℕ) (r : Bytes) (s : Store)
    → lookup r s ≡ none
    → lookup r (prune_each ttl_ms t s).0 ≡ none
unfolding prune_each lookup
lookup-prune_each ttl_ms t r [] h = refl
lookup-prune_each ttl_ms t r ((k, q) ∷ s) h = ground (arith, lookup-prune_each ttl_ms t r s)

pub queue-prune_each :
    (ttl_ms t : ℕ) (r : Bytes) (s : Store)
    → Distinct s
    → queue r (prune_each ttl_ms t s).0 ≡ fresh ttl_ms t (queue r s)
unfolding prune_each lookup_or lookup fresh
queue-prune_each ttl_ms t r [] d = refl
queue-prune_each ttl_ms t r ((k, q) ∷ s) d = ground (
  arith,
  queue-prune_each ttl_ms t r s d.1,
  prune_queue-fresh ttl_ms t q,
  lookup-prune_each ttl_ms t k s d.0,
  ==_iff k r,
)

total-prune_each :
    (ttl_ms t : ℕ) (s : Store)
    → total_blobs (prune_each ttl_ms t s).0 + (prune_each ttl_ms t s).1 ≡ total_blobs s
unfolding prune_each total_blobs
total-prune_each ttl_ms t [] = omega arith
total-prune_each ttl_ms t ((k, q) ∷ s) =
    ground (arith, total-prune_each ttl_ms t s, length-prune_queue ttl_ms t q)

-- A prune leaves each recipient the blobs that have not run out, in their order, and returns the
-- number of blobs it dropped from all queues.
pub prune_expired_lem :
    (clock now_ms ttl_ms : ℕ) (s : Store)
    → Distinct s
    → ((r : Bytes)
        → queue r (prune_expired clock now_ms ttl_ms s).0
          ≡ fresh ttl_ms (now_ms_or clock now_ms) (queue r s))
      × (total_blobs (prune_expired clock now_ms ttl_ms s).0
            + (prune_expired clock now_ms ttl_ms s).1
          ≡ total_blobs s)
unfolding prune_expired
prune_expired_lem clock now_ms ttl_ms s d = (
  λ r. queue-prune_each ttl_ms (now_ms_or clock now_ms) r s d,
  total-prune_each ttl_ms (now_ms_or clock now_ms) s,
)

-- A deposit to a full queue is refused even when every blob of the queue has run out: it drops
-- none of them.
pub deposit_full_of_expired :
    (clock : ℕ) (recipient payload : Bytes) (now_ms : ℕ) (s : Store)
    → length recipient ≡ 32
    → payload ≢ []
    → length (queue recipient s) ≡ max_blobs_per_recipient
    → fresh default_blob_ttl_ms (now_ms_or clock now_ms) (queue recipient s) ≡ []
    → deposit clock recipient payload now_ms s ≡ (rejected_full, s)
unfolding deposit
deposit_full_of_expired clock recipient payload now_ms s h p full_queue expired =
    let good : eqb (length recipient) 32 ≡ true = ground arith in
    let at_cap : leb max_blobs_per_recipient (length (queue recipient s)) ≡ true = ground arith in
    elim (Bool-cases (eqb (length payload) 0)) [
      | inl empty ↦ absurd (p (length-zero payload empty))
      | inr some_bytes ↦ rw (good, some_bytes, at_cap, deposit) refl
    ]
