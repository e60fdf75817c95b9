-- ===== src/P2P/OfflineRelay/Limits.antt =====
-- The limit on the messages for one recipient.
use fin_bit.Prelude.{
  ℕ, ◌≤◌, [], ◌∷◌, ◌++◌, Bytes, nat_eq, list_eq, eqb, leb, length, length-append, arith,
  Option-cases, Bool-cases, inl, inr,
}
use fin_bit.Prelude.Dict.{
  lookup, lookup_or-insert, lookup_or-erase, Distinct, insert-Distinct, erase-Distinct,
}
use fin_bit.P2P.OfflineRelay.{
  Store, max_blobs_per_recipient, now_ms_or, deposit, fetch_and_clear, prune_queue, prune_each,
  prune_expired,
}
use fin_bit.P2P.OfflineRelay.Laws.{queue, queue-prune_each, length-fresh-le, lookup-prune_each}

-- A map of queues within the limit.
pub record IsValid (s : Store) : Type 0 where
  pub distinct : Distinct s
  pub capped : (recipient : Bytes) → length (queue recipient s) ≤ max_blobs_per_recipient

prune_each-Distinct : (ttl_ms t : ℕ) (s : Store) → Distinct s → Distinct (prune_each ttl_ms t s).0
unfolding prune_each
prune_each-Distinct ttl_ms t [] d = d
prune_each-Distinct ttl_ms t ((k, q) ∷ s) d =
    elim (prune_queue ttl_ms t q).0
      as (λ kept. Distinct (elim kept [
        | [] ↦ (prune_each ttl_ms t s).0
        | b ∷ bs ↦ (k, b ∷ bs) ∷ (prune_each ttl_ms t s).0
      ])) [
        | [] ↦ prune_each-Distinct ttl_ms t s d.1
        | b ∷ bs ↦ (lookup-prune_each ttl_ms t k s d.0, prune_each-Distinct ttl_ms t s d.1)
      ]

-- One call on a store.
pub data Call : Type 0 where
  deposits : Bytes → Bytes → ℕ → Call
  fetches : Bytes → ℕ → Call
  prunes : ℕ → ℕ → Call

unfoldable pub call : ℕ → Call → Store → Store
call clock (deposits recipient payload now_ms) s = (deposit clock recipient payload now_ms s).1
call clock (fetches recipient now_ms) s = (fetch_and_clear clock recipient now_ms s).1
call clock (prunes now_ms ttl_ms) s = (prune_expired clock now_ms ttl_ms s).0

deposit-IsValid :
    (clock : ℕ) (recipient payload : Bytes) (now_ms : ℕ) (s : Store)
    → IsValid s
    → IsValid (deposit clock recipient payload now_ms s).1
unfolding deposit
deposit-IsValid clock recipient payload now_ms s v = elim (Bool-cases (eqb (length recipient) 32)) [
  | inr bad ↦ rw (bad, deposit) v
  | inl good ↦ elim (Bool-cases (eqb (length payload) 0)) [
    | inl empty ↦ rw (good, empty, deposit) v
    | inr some_bytes ↦
        elim (Bool-cases (leb max_blobs_per_recipient (length (queue recipient s)))) [
          | inl at_cap ↦ rw (good, some_bytes, at_cap, deposit) v
          | inr room ↦
              rw (good, some_bytes, room, deposit)
                (record {
                  distinct = insert-Distinct recipient _ s v.distinct;
                  capped = λ r. ground (
                    arith,
                    lookup_or-insert [] recipient r
                        (queue recipient s
                          ++ record { bytes = payload; deposited_at_ms = now_ms_or clock now_ms }
                            ∷ [])
                        s,
                    length-append (queue recipient s)
                        (record { bytes = payload; deposited_at_ms = now_ms_or clock now_ms } ∷ []),
                    v.capped r,
                  );
                })
        ]
  ]
]

fetch_and_clear-IsValid :
    (clock : ℕ) (recipient : Bytes) (now_ms : ℕ) (s : Store)
    → IsValid s
    → IsValid (fetch_and_clear clock recipient now_ms s).1
unfolding fetch_and_clear
fetch_and_clear-IsValid clock recipient now_ms s v = elim (Bool-cases (eqb (length recipient) 32)) [
  | inr bad ↦ rw (bad, fetch_and_clear) v
  | inl good ↦ elim (Option-cases (lookup recipient s)) [
    | inl e ↦ rw (good, fetch_and_clear) (rw (e, fetch_and_clear) v)
    | inr (q, e) ↦
        rw (good, fetch_and_clear)
          (rw (e, fetch_and_clear)
            (record {
              distinct = erase-Distinct recipient s v.distinct;
              capped = λ r. ground (arith, lookup_or-erase [] recipient r s, v.capped r);
            }))
  ]
]

prune_expired-IsValid :
    (clock now_ms ttl_ms : ℕ) (s : Store)
    → IsValid s
    → IsValid (prune_expired clock now_ms ttl_ms s).0
unfolding prune_expired
prune_expired-IsValid clock now_ms ttl_ms s v = record {
  distinct = prune_each-Distinct ttl_ms (now_ms_or clock now_ms) s v.distinct;
  capped = λ r. ground (
    arith,
    queue-prune_each ttl_ms (now_ms_or clock now_ms) r s v.distinct,
    length-fresh-le ttl_ms (now_ms_or clock now_ms) (queue r s),
    v.capped r,
  );
}

-- Every call keeps the keys distinct and every queue within 256 blobs.
pub call-IsValid : (clock : ℕ) (c : Call) (s : Store) → IsValid s → IsValid (call clock c s)
unfolding call
call-IsValid clock (deposits recipient payload now_ms) s v =
    deposit-IsValid clock recipient payload now_ms s v
call-IsValid clock (fetches recipient now_ms) s v =
    fetch_and_clear-IsValid clock recipient now_ms s v
call-IsValid clock (prunes now_ms ttl_ms) s v = prune_expired-IsValid clock now_ms ttl_ms s v
