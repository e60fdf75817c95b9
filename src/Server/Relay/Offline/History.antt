-- ===== src/Server/Relay/Offline/History.antt =====
-- The offline queues of all users over a history of calls.
use fin_bit.Prelude.{
  ℕ, ◌≡◌, refl, ap, ◌∙◌, ◌-◌, ◌≤◌, List, [], ◌∷◌, ◌++◌, Option, none, some, Bytes, ◌==◌, ==_iff,
  if◌then◌else◌, nat_eq, list_eq, arith, Option-cases, inl, inr, length, length-drop,
}
use fin_bit.Prelude.Dict.{lookup_or-none, lookup, lookup_or, lookup_or-erase, lookup_or-insert}
use fin_bit.Server.Relay.Offline.{
  Row, Offline, max_queued, srv_offline_enqueue, srv_offline_drain, push_capped, enqueue_offline,
  drain_offline,
}
use fin_bit.Server.Relay.Offline.Laws.{
  pending, drained, keep_last, pending_memory, push_capped_lem, srv_offline_drain-enqueue,
  srv_offline_drain-drain,
}

-- The calls on the offline queues.
pub data Call : Type 0 where
  enqueues : Bytes → Bytes → ℕ → Call
  drains : Bytes → Call

abbrev pub step : Offline → Call → Offline
step s (enqueues user envelope now) = enqueue_offline user envelope now s
step s (drains user) = drained user s

abbrev pub run : Offline → List Call → Offline
run s [] = s
run s (c ∷ cs) = run (step s c) cs

-- The queue of each user. `keep` says what the store holds on to.
abbrev pub Queues : Type 0
Queues = Bytes → List Bytes

abbrev pub step_queues : (List Bytes → List Bytes) → Queues → Call → Queues
step_queues keep q (enqueues user envelope now) other =
    if user == other then keep (q user ++ envelope ∷ []) else q other
step_queues keep q (drains user) other = if user == other then [] else q other

abbrev pub run_queues : (List Bytes → List Bytes) → Queues → List Call → Queues
run_queues keep q [] = q
run_queues keep q (c ∷ cs) = run_queues keep (step_queues keep q c) cs

-- In memory a queue holds at most `max_queued` envelopes; the table has no limit.
pub record InMemory (q : Queues) (s : Offline) : Type 0 where
  pub volatile : s.persistent ≡ none
  pub small : (user : Bytes) → length (lookup_or [] user s.queues) ≤ max_queued
  pub queued : (user : Bytes) → lookup_or [] user s.queues ≡ q user

length-keep_last : (q : List Bytes) → length (keep_last q) ≤ max_queued
length-keep_last q = omega (arith, length-drop (length q - max_queued) q)

enqueue-InMemory :
    (q : Queues) (m : List (Bytes × List Bytes)) (user envelope : Bytes) (now : ℕ)
    → InMemory q (record { queues = m; persistent = none })
    → InMemory
        (step_queues keep_last q (enqueues user envelope now))
        (enqueue_offline user envelope now (record { queues = m; persistent = none }))
unfolding enqueue_offline
enqueue-InMemory q m user envelope now h =
    let old = lookup_or [] user m in
    let new = push_capped old envelope in
    let e = push_capped_lem old envelope (h.small user) in
    record {
      volatile = refl;
      small = λ other. ground (
        arith,
        lookup_or-insert [] user other new m,
        h.small other,
        ap length e,
        length-keep_last (old ++ envelope ∷ []),
      );
      queued = λ other. ground (
        arith,
        lookup_or-insert [] user other new m,
        h.queued other,
        e,
        ap (λ (o : List Bytes). keep_last (o ++ envelope ∷ [])) (h.queued user),
      );
    }

drain-InMemory :
    (q : Queues) (m : List (Bytes × List Bytes)) (user : Bytes)
    → InMemory q (record { queues = m; persistent = none })
    → InMemory
        (step_queues keep_last q (drains user))
        (drained user (record { queues = m; persistent = none }))
unfolding drain_offline
drain-InMemory q m user h = elim (Option-cases (lookup user m)) [
  | inl e ↦
      let nothing = lookup_or-none [] user m e in
      rw (e, drained)
        (record {
          volatile = refl;
          small = h.small;
          queued = λ other. ground (arith, nothing, h.queued other, ==_iff user other);
        })
  | inr (v, e) ↦
      rw (e, drained)
        (record {
          volatile = refl;
          small = λ other. ground (arith, lookup_or-erase [] user other m, h.small other);
          queued = λ other. ground (arith, lookup_or-erase [] user other m, h.queued other);
        })
]

step-InMemory :
    (q : Queues) (m : List (Bytes × List Bytes)) (p : Option (List Row)) (c : Call)
    → InMemory q (record { queues = m; persistent = p })
    → InMemory (step_queues keep_last q c) (step (record { queues = m; persistent = p }) c)
step-InMemory q m none (enqueues user envelope now) h = enqueue-InMemory q m user envelope now h
step-InMemory q m none (drains user) h = drain-InMemory q m user h
step-InMemory q m (some rows) c h = cc (h.volatile)

run-InMemory :
    (q : Queues) (s : Offline) (cs : List Call)
    → InMemory q s
    → InMemory (run_queues keep_last q cs) (run s cs)
run-InMemory q s [] h = h
run-InMemory q s (c ∷ cs) h =
    run-InMemory (step_queues keep_last q c) (step s c) cs
      (step-InMemory q s.queues s.persistent c h)

pending-InMemory :
    (q : Queues) (m : List (Bytes × List Bytes)) (p : Option (List Row)) (user : Bytes)
    → InMemory q (record { queues = m; persistent = p })
    → pending user (record { queues = m; persistent = p }) ≡ q user
pending-InMemory q m none user h = pending_memory user m ∙ h.queued user
pending-InMemory q m (some rows) user h = cc (h.volatile)

-- The table.
pub record InTable (q : Queues) (s : Offline) : Type 0 where
  pub rows : List Row
  pub stored : s.persistent ≡ some rows
  pub queued : (user : Bytes) → (srv_offline_drain user rows).0 ≡ q user

step-InTable :
    (q : Queues) (m : List (Bytes × List Bytes)) (p : Option (List Row)) (c : Call)
    → InTable q (record { queues = m; persistent = p })
    → InTable (step_queues (λ v. v) q c) (step (record { queues = m; persistent = p }) c)
unfolding enqueue_offline drain_offline
step-InTable q m none c h = cc (h.stored)
step-InTable q m (some rows) (enqueues user envelope now) h =
    let same : rows ≡ h.rows = cc (h.stored) in
    record {
      rows = srv_offline_enqueue user envelope now rows;
      stored = refl;
      queued = λ other. ground (
        arith,
        srv_offline_drain-enqueue user other envelope now rows,
        ==_iff user other,
        ap (λ (l : List Row). (srv_offline_drain user l).0) same,
        ap (λ (l : List Row). (srv_offline_drain other l).0) same,
        h.queued user,
        h.queued other,
      );
    }
step-InTable q m (some rows) (drains user) h =
    let same : rows ≡ h.rows = cc (h.stored) in
    record {
      rows = (srv_offline_drain user rows).1;
      stored = refl;
      queued = λ other. ground (
        arith,
        srv_offline_drain-drain user other rows,
        ap (λ (l : List Row). (srv_offline_drain other l).0) same,
        h.queued other,
      );
    }

run-InTable :
    (q : Queues) (s : Offline) (cs : List Call)
    → InTable q s
    → InTable (run_queues (λ v. v) q cs) (run s cs)
run-InTable q s [] h = h
run-InTable q s (c ∷ cs) h =
    run-InTable (step_queues (λ v. v) q c) (step s c) cs (step-InTable q s.queues s.persistent c h)

pending-InTable :
    (q : Queues) (m : List (Bytes × List Bytes)) (p : Option (List Row)) (user : Bytes)
    → InTable q (record { queues = m; persistent = p })
    → pending user (record { queues = m; persistent = p }) ≡ q user
unfolding drain_offline
pending-InTable q m none user h = cc (h.stored)
pending-InTable q m (some rows) user h =
    let same : rows ≡ h.rows = cc (h.stored) in rw same (h.queued user)

abbrev pub in_memory : Offline
in_memory = record { queues = []; persistent = none }

abbrev pub in_table : Offline
in_table = record { queues = []; persistent = some [] }

-- After any history of calls, a drain returns the user's envelopes in the order in which they
-- came: those since the user's last drain, without a limit in the table and only the newest
-- `max_queued` of them in memory.
pub pending-run :
    (cs : List Call) (user : Bytes)
    → (pending user (run in_memory cs) ≡ run_queues keep_last (λ _. []) cs user)
      × (pending user (run in_table cs) ≡ run_queues (λ v. v) (λ _. []) cs user)
unfolding lookup_or lookup srv_offline_drain
pending-run cs user =
    let memory = run in_memory cs in
    let table = run in_table cs in
    (
      pending-InMemory _ memory.queues memory.persistent user (
          run-InMemory (λ _. []) in_memory cs
            (record { volatile = refl; small = λ v. omega arith; queued = λ v. refl })),
      pending-InTable _ table.queues table.persistent user (
          run-InTable (λ _. []) in_table cs
            (record { rows = []; stored = refl; queued = λ v. refl })),
    )
