-- ===== src/Identity/UsernameGossip.antt =====
-- core/src/identity/username_gossip.cpp: replicas of the log ask each other for newer claims, a page
-- at a time. A message is what protobuf parses it to, `none` if it does not parse; a request id that
-- is drawn at random is an argument. What is sent is returned.
use fin_bit.Prelude.{
  ℕ, ◌+◌, ◌-◌, min, List, [], ◌∷◌, Option, none, some, Bool, true, false, Bytes, length, take, ltb,
  if◌then◌else◌,
}
use fin_bit.Identity.UsernameLog.{Claim, Log, accepted, AppendResult, claims_since, append_claim}
pub mod Paging
mod Tests

abbrev pub claims_page_max : ℕ
claims_page_max = 256

-- The body of an `IdentityGossipMessage`.
pub data Body : Type 0 where
  request : (since_ms max_records : ℕ) → Body
  response : (claims : List Claim) (truncated : Bool) (max_seen_ms : ℕ) → Body
  no_body : Body

pub record Wire : Type 0 where
  pub body : Body
  pub request_id : Bytes

-- The log of a replica, and `accepted_count`.
pub record Replica : Type 0 where
  pub log : Log
  pub accepted_count : ℕ

unfoldable pub sync_with : Bytes → ℕ → Wire
sync_with request_id since_ms = record {
  body = request since_ms claims_page_max;
  request_id = request_id;
}

-- The loop over the claims of a page.
unfoldable pub max_seen : ℕ → List Claim → ℕ
max_seen seen [] = seen
max_seen seen (c ∷ cs) = max_seen (if ltb seen c.timestamp_ms then c.timestamp_ms else seen) cs

unfoldable pub want_max : ℕ → ℕ
want_max max_records =
    if ltb 0 max_records then min max_records claims_page_max else claims_page_max

-- The reply to a request.
unfoldable pub answer : ℕ → ℕ → Log → Body
unfolding max_seen want_max
answer since_ms max_records log =
    let want = want_max max_records in
    let claims = claims_since since_ms (want + 1) log in
    let truncated = ltb want (length claims) in
    let page = if truncated then take (length claims - 1) claims else claims in
    response page truncated (max_seen since_ms page)

is_accepted : AppendResult → ℕ
is_accepted accepted = 1
is_accepted other = 0

module _ (verify : Bytes → Bytes → Bytes → Bool) where
  -- The loop over the claims of a reply; the time is read for each.
  unfoldable pub take_claims : ℕ → List Claim → Replica → Replica
  unfolding is_accepted
  take_claims clock [] r = r
  take_claims clock (c ∷ cs) r =
      let (result, log) = append_claim verify clock 0 c r.log in
      take_claims clock cs
        (record { log = log; accepted_count = r.accepted_count + is_accepted result })

  unfoldable pub handle : ℕ → Wire → Body → Replica → Option Wire × Replica
  unfolding answer take_claims
  handle clock m (request since_ms max_records) r =
      (some (record { body = answer since_ms max_records r.log; request_id = m.request_id }), r)
  handle clock m (response claims truncated seen) r = (none, take_claims clock claims r)
  handle clock m no_body r = (none, r)

  unfoldable pub on_message : ℕ → Option Wire → Replica → Option Wire × Replica
  unfolding handle
  on_message clock none r = (none, r)
  on_message clock (some m) r = handle clock m m.body r
