-- ===== src/Server/Relay/Offline.antt =====
-- server/src/relay.cpp, `enqueue_offline` and `drain_offline`: envelopes for users who are away.
-- The persistent queue is the table `srv_offline` of core/src/store/sqlite_store.cpp, whose rows
-- are kept in the order of their automatic ids. A failing SQL statement is not modelled.
use fin_bit.Prelude.{
  ℕ, ◌≡◌, ◌-◌, List, [], ◌∷◌, ◌++◌, Option, none, some, Bytes, Eq, ◌==◌, if◌then◌else◌, nat_eq,
  list_eq, leb, length, drop,
}
use fin_bit.Prelude.Dict.{lookup, lookup_or, insert, erase}
pub mod Laws
pub mod History

pub record Row : Type 0 where
  pub recipient : Bytes
  pub envelope : Bytes
  pub ts_ms : ℕ

pub record Offline : Type 0 where
  pub queues : List (Bytes × List Bytes)
  pub persistent : Option (List Row)

abbrev pub max_queued : ℕ
max_queued = 1024

-- `INSERT INTO srv_offline …`
unfoldable pub srv_offline_enqueue : Bytes → Bytes → ℕ → List Row → List Row
srv_offline_enqueue user envelope now rows =
    rows ++ record { recipient = user; envelope = envelope; ts_ms = now } ∷ []

-- `SELECT … WHERE recipient_pub = ? ORDER BY id`, and the deletion of each row that it gave.
unfoldable pub srv_offline_drain : Bytes → List Row → List Bytes × List Row
srv_offline_drain user [] = ([], [])
srv_offline_drain user (row ∷ rows) =
    let r = srv_offline_drain user rows in
    if row.recipient == user then (row.envelope ∷ r.0, r.1) else (r.0, row ∷ r.1)

-- `if (q.size() >= kMaxQueued) q.pop_front(); q.push_back(…)`
unfoldable pub push_capped : List Bytes → Bytes → List Bytes
push_capped q envelope = (if leb max_queued (length q) then drop 1 q else q) ++ envelope ∷ []

unfoldable pub enqueue_offline : Bytes → Bytes → ℕ → Offline → Offline
unfolding srv_offline_enqueue push_capped
enqueue_offline user envelope now s = elim s.persistent [
  | some rows ↦ record s { persistent = some (srv_offline_enqueue user envelope now rows) }
  | none ↦ record s {
    queues = insert user (push_capped (lookup_or [] user s.queues) envelope) s.queues;
  }
]

unfoldable pub drain_offline : Bytes → Offline → List Bytes × Offline
unfolding srv_offline_drain
drain_offline user s = elim s.persistent [
  | some rows ↦ (
    (srv_offline_drain user rows).0,
    record s { persistent = some (srv_offline_drain user rows).1 },
  )
  | none ↦ elim (lookup user s.queues) [
    | none ↦ ([], s)
    | some q ↦ (q, record s { queues = erase user s.queues })
  ]
]
