-- ===== src/Server/Relay/Offline/Laws.antt =====
-- What is queued for a user, and what a drain returns.
use fin_bit.Prelude.{
  ℕ, ◌≡◌, sym, ◌-◌, ◌≤◌, List, [], ◌∷◌, ◌++◌, none, Bytes, ◌==◌, ==_iff, if◌then◌else◌, nat_eq,
  list_eq, arith, Bool-cases, Option-cases, inl, inr, leb, length, drop, length-append,
  drop-append_le,
}
use fin_bit.Prelude.Dict.{lookup_or-some, lookup_or-none, lookup, lookup_or, erase, lookup_or-erase}
use fin_bit.Server.Relay.Offline.{
  Row, Offline, max_queued, srv_offline_enqueue, srv_offline_drain, push_capped, drain_offline,
}

-- What a drain would return, and what it would leave.
abbrev pub pending : Bytes → Offline → List Bytes
pending user s = (drain_offline user s).0

abbrev pub drained : Bytes → Offline → Offline
drained user s = (drain_offline user s).1

-- The last envelopes that fit.
abbrev pub keep_last : List Bytes → List Bytes
keep_last q = drop (length q - max_queued) q

pub pending_memory :
    (user : Bytes) (m : List (Bytes × List Bytes))
    → pending user (record { queues = m; persistent = none }) ≡ lookup_or [] user m
unfolding drain_offline
pending_memory user m = elim (Option-cases (lookup user m)) [
  | inl e ↦ rw (e, pending) (sym (lookup_or-none [] user m e))
  | inr (q, e) ↦ rw (e, pending) (sym (lookup_or-some [] user m q e))
]

pub push_capped_lem :
    (q : List Bytes) (envelope : Bytes)
    → length q ≤ max_queued
    → push_capped q envelope ≡ keep_last (q ++ envelope ∷ [])
unfolding push_capped
push_capped_lem q envelope h = elim (Bool-cases (leb max_queued (length q))) [
  | inl full ↦
      let n : length (q ++ envelope ∷ []) - max_queued ≡ 1 =
        ground (arith, length-append q (envelope ∷ [])) in
      rw (full, n) (sym (drop-append_le 1 q (envelope ∷ []) (ground arith)))
  | inr room ↦
      let n : length (q ++ envelope ∷ []) - max_queued ≡ 0 =
        ground (arith, length-append q (envelope ∷ [])) in
      rw (room, n)
]

pub srv_offline_drain-enqueue :
    (user other envelope : Bytes) (now : ℕ) (rows : List Row)
    → (srv_offline_drain other (srv_offline_enqueue user envelope now rows)).0 ≡ (
        if user == other
        then (srv_offline_drain other rows).0 ++ envelope ∷ []
        else (srv_offline_drain other rows).0)
unfolding srv_offline_drain srv_offline_enqueue
srv_offline_drain-enqueue user other envelope now [] = ground arith
srv_offline_drain-enqueue user other envelope now (row ∷ rows) =
    ground (arith, srv_offline_drain-enqueue user other envelope now rows)

pub srv_offline_drain-drain :
    (user other : Bytes) (rows : List Row)
    → (srv_offline_drain other (srv_offline_drain user rows).1).0
      ≡ (if user == other then [] else (srv_offline_drain other rows).0)
unfolding srv_offline_drain
srv_offline_drain-drain user other [] = ground arith
srv_offline_drain-drain user other (row ∷ rows) = ground (
  arith,
  srv_offline_drain-drain user other rows,
  ==_iff row.recipient user,
  ==_iff row.recipient other,
  ==_iff user other,
)

drained_memory :
    (user other : Bytes) (m : List (Bytes × List Bytes))
    → pending other (drained user (record { queues = m; persistent = none }))
      ≡ (if user == other then [] else lookup_or [] other m)
unfolding drain_offline
drained_memory user other m = elim (Option-cases (lookup user m)) [
  | inl e ↦
      rw (e, drained, pending_memory other m)
        (ground (arith, lookup_or-none [] user m e, ==_iff user other))
  | inr (q, e) ↦ rw (e, drained, pending_memory other (erase user m), lookup_or-erase)
]
