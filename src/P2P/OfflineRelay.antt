-- ===== src/P2P/OfflineRelay.antt =====
-- core/src/p2p/offline_relay.cpp: a peer stores sealed messages for peers who are away. Times
-- are 64-bit and their sums wrap. The system clock, which is read where the caller passes 0, is
-- an argument of each operation.
use fin_bit.Prelude.{
  ℕ, ◌+◌, ◌*◌, ◌%◌, ◌^◌, ◌≡◌, List, [], ◌∷◌, ◌++◌, Option, none, some, Bytes, Eq, ◌==◌,
  if◌then◌else◌, nat_eq, list_eq, Bool, true, false, eqb, ltb, leb, not, length,
}
use fin_bit.Prelude.Dict.{lookup, lookup_or, insert, erase}
pub mod Laws
pub mod Limits
mod Tests

pub record Blob : Type 0 where
  pub bytes : Bytes
  pub deposited_at_ms : ℕ

abbrev pub Store : Type 0
Store = List (Bytes × List Blob)

pub data DepositResult : Type 0 where
  accepted rejected_format rejected_full : DepositResult

abbrev pub max_blobs_per_recipient : ℕ
max_blobs_per_recipient = 256

abbrev pub default_blob_ttl_ms : ℕ
default_blob_ttl_ms = 7 * 24 * 60 * 60 * 1000

unfoldable pub now_ms_or : ℕ → ℕ → ℕ
now_ms_or clock override_ms = if eqb override_ms 0 then clock else override_ms

unfoldable pub deposit : ℕ → Bytes → Bytes → ℕ → Store → DepositResult × Store
unfolding now_ms_or
deposit clock recipient payload now_ms s =
    let q = lookup_or [] recipient s in
    let blob : Blob = record { bytes = payload; deposited_at_ms = now_ms_or clock now_ms } in
    if not (eqb (length recipient) 32)
    then (rejected_format, s)
    else (if eqb (length payload) 0
        then (rejected_format, s)
        else (if leb max_blobs_per_recipient (length q)
            then (rejected_full, s)
            else (accepted, insert recipient (q ++ blob ∷ []) s)))

-- `deposited_at_ms + ttl_ms > t`
unfoldable pub is_fresh : ℕ → ℕ → Blob → Bool
is_fresh ttl_ms t b = ltb t ((b.deposited_at_ms + ttl_ms) % 2 ^ 64)

unfoldable pub fresh_bytes : ℕ → List Blob → List Bytes
unfolding is_fresh
fresh_bytes t [] = []
fresh_bytes t (b ∷ q) =
    if is_fresh default_blob_ttl_ms t b then b.bytes ∷ fresh_bytes t q else fresh_bytes t q

unfoldable pub fetch_and_clear : ℕ → Bytes → ℕ → Store → List Bytes × Store
unfolding now_ms_or fresh_bytes
fetch_and_clear clock recipient now_ms s =
    let t = now_ms_or clock now_ms in
    if not (eqb (length recipient) 32) then ([], s) else elim (lookup recipient s) [
      | none ↦ ([], s)
      | some q ↦ (fresh_bytes t q, erase recipient s)
    ]

-- One queue: what stays, and how many blobs were dropped.
unfoldable pub prune_queue : ℕ → ℕ → List Blob → List Blob × ℕ
unfolding is_fresh
prune_queue ttl_ms t [] = ([], 0)
prune_queue ttl_ms t (b ∷ q) =
    let rest = prune_queue ttl_ms t q in
    if is_fresh ttl_ms t b then (b ∷ rest.0, rest.1) else (rest.0, rest.1 + 1)

unfoldable pub prune_each : ℕ → ℕ → Store → Store × ℕ
prune_each ttl_ms t [] = ([], 0)
prune_each ttl_ms t ((recipient, q) ∷ s) =
    let kept = prune_queue ttl_ms t q in
    let rest = prune_each ttl_ms t s in
    (elim kept.0 [ [] ↦ rest.0 | b ∷ bs ↦ (recipient, b ∷ bs) ∷ rest.0 ], kept.1 + rest.1)

unfoldable pub prune_expired : ℕ → ℕ → ℕ → Store → Store × ℕ
unfolding now_ms_or prune_queue prune_each
prune_expired clock now_ms ttl_ms s = prune_each ttl_ms (now_ms_or clock now_ms) s

unfoldable pub total_blobs : Store → ℕ
total_blobs [] = 0
total_blobs ((recipient, q) ∷ s) = length q + total_blobs s

unfoldable pub recipients : Store → ℕ
recipients s = length s
