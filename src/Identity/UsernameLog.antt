-- ===== src/Identity/UsernameLog.antt =====
-- core/src/identity/username_log.cpp: signed claims of names, in a table of SQLite with the primary
-- key (username, pubkey). Ed25519 is outside: `verify` is crypto_sign_verify_detached. The system
-- clock, which is read where the caller passes 0, is an argument.
use fin_bit.Prelude.{
  ℕ, zero, suc, ◌+◌, ◌*◌, ◌%◌, ◌^◌, List, [], ◌∷◌, ◌++◌, Option, none, some, Bool, true, false, not,
  ◌&&◌, ◌||◌, Bytes, c_str, be16, be64, Eq, ◌==◌, nat_eq, list_eq, length, get_or, take, ltb, leb,
  eqb, if◌then◌else◌,
}
use fin_bit.Prelude.Result.{Result, ok, err}
pub mod Signing
pub mod Resolving
pub mod Replicas
pub mod Convergence
mod Tests

abbrev pub accepted_clock_skew_ms : ℕ
accepted_clock_skew_ms = 5 * 60 * 1000

abbrev pub username_min_bytes : ℕ
username_min_bytes = 3

abbrev pub username_max_bytes : ℕ
username_max_bytes = 32

-- A `UserClaim`.
pub record Claim : Type 0 where
  pub username : Bytes
  pub pubkey : Bytes
  pub timestamp_ms : ℕ
  pub nonce : Bytes
  pub signature : Bytes

pub data AppendResult : Type 0 where
  accepted already_known rejected_format rejected_sig rejected_clock : AppendResult

-- The exceptions.
pub data ClaimError : Type 0 where
  bad_pubkey bad_nonce bad_username bad_private_key : ClaimError

abbrev edge_bad : ℕ → Bool
edge_bad c = c == b'.' || c == b'-'

unfoldable pub is_name_byte : ℕ → Bool
is_name_byte c =
    leb b'a' c && leb c b'z' || leb b'0' c && leb c b'9' || c == b'.' || c == b'_' || c == b'-'

unfoldable pub are_name_bytes : Bytes → Bool
unfolding is_name_byte
are_name_bytes [] = true
are_name_bytes (c ∷ cs) = is_name_byte c && are_name_bytes cs

-- `candidate.back()`
abbrev last : Bytes → ℕ
last [] = 0
last (c ∷ []) = c
last (c ∷ d ∷ cs) = last (d ∷ cs)

unfoldable pub is_valid_username : Bytes → Bool
unfolding are_name_bytes
is_valid_username candidate =
    if ltb (length candidate) username_min_bytes || ltb username_max_bytes (length candidate)
    then false
    else (if edge_bad (get_or candidate 0 0) || edge_bad (last candidate)
        then false
        else are_name_bytes candidate)

-- `fb.identity.UserClaim:v1` and a line feed.
abbrev pub canonical_magic : Bytes
canonical_magic =
    b'f' ∷ b'b' ∷ b'.' ∷ b'i' ∷ b'd' ∷ b'e' ∷ b'n' ∷ b't' ∷ b'i' ∷ b't' ∷ b'y' ∷ b'.' ∷ b'U' ∷ b's'
    ∷ b'e' ∷ b'r' ∷ b'C' ∷ b'l' ∷ b'a' ∷ b'i' ∷ b'm' ∷ b':' ∷ b'v' ∷ b'1' ∷ 10 ∷ []

unfoldable pub canonical_signing_bytes : Bytes → Bytes → ℕ → Bytes → Result ClaimError Bytes
canonical_signing_bytes username pubkey timestamp_ms nonce =
    if not (eqb (length pubkey) 32)
    then err bad_pubkey
    else (if not (eqb (length nonce) 16)
        then err bad_nonce
        else ok (
            canonical_magic
            ++ (be16 (length username % 2 ^ 16)
                ++ (username ++ (32 ∷ (pubkey ++ (be64 timestamp_ms ++ (16 ∷ nonce))))))))

-- The key pair signs by `sign`, crypto_sign_detached; the random nonce is an argument.
unfoldable pub build_claim :
    (Bytes → Bytes → Bytes) → Bytes → Bytes → Bytes → Bytes → ℕ → Result ClaimError Claim
unfolding canonical_signing_bytes
build_claim sign nonce username sig_pub sig_priv timestamp_ms =
    if not (is_valid_username username)
    then err bad_username
    else (if not (eqb (length sig_pub) 32)
        then err bad_pubkey
        else (if not (eqb (length sig_priv) 64)
            then err bad_private_key
            else elim (canonical_signing_bytes username sig_pub timestamp_ms nonce) [
              | err e ↦ err e
              | ok bytes ↦ ok (record {
                username = username;
                pubkey = sig_pub;
                timestamp_ms = timestamp_ms;
                nonce = nonce;
                signature = sign bytes sig_priv;
              })
            ]))

-- The rows of username_claims, in the order of their insertion.
abbrev pub Log : Type 0
Log = List Claim

-- `SELECT 1 ... WHERE username = ? AND pubkey = ?`
unfoldable pub is_known : Bytes → Bytes → Log → Bool
is_known username pubkey [] = false
is_known username pubkey (r ∷ log) =
    if r.username == username && r.pubkey == pubkey then true else is_known username pubkey log

-- `hex(a) < hex(b)`: the order of the digits is that of the bytes.
unfoldable pub hex_less : Bytes → Bytes → Bool
hex_less [] [] = false
hex_less [] (y ∷ ys) = true
hex_less (x ∷ xs) [] = false
hex_less (x ∷ xs) (y ∷ ys) = if ltb x y then true else (if ltb y x then false else hex_less xs ys)

-- `<` of the column timestamp_ms. A time is a 64-bit number, and is kept as one with a sign: from
-- 2 ^ 63 on it is negative, and stands before the others.
unfoldable pub int64_less : ℕ → ℕ → Bool
int64_less a b =
    if ltb a (2 ^ 63)
    then (if ltb b (2 ^ 63) then ltb a b else false)
    else (if ltb b (2 ^ 63) then true else ltb a b)

-- `ORDER BY timestamp_ms ASC, hex(signature) ASC`
unfoldable pub before : Claim → Claim → Bool
unfolding hex_less int64_less
before a b =
    if int64_less a.timestamp_ms b.timestamp_ms
    then true
    else (if int64_less b.timestamp_ms a.timestamp_ms
        then false
        else hex_less a.signature b.signature)

-- `WHERE username = ? ORDER BY ... LIMIT 1`. Of rows that come out equal SQLite may return any; this
-- is the first.
unfoldable pub winner : Bytes → Log → Option Claim
unfolding before
winner username [] = none
winner username (r ∷ log) =
    let rest = winner username log in
    if r.username == username
    then elim rest [ none ↦ some r | some best ↦ if before best r then some best else some r ]
    else rest

unfoldable pub resolve : Bytes → Log → Option Bytes
unfolding winner
resolve username log = elim (winner (c_str username) log) [
  | none ↦ none
  | some r ↦ if eqb (length r.pubkey) 32 then some r.pubkey else none
]

-- `ORDER BY timestamp_ms ASC`
unfoldable pub insert_by_time : Claim → Log → Log
unfolding int64_less
insert_by_time r [] = r ∷ []
insert_by_time r (q ∷ log) =
    let later = insert_by_time r log in
    if int64_less q.timestamp_ms r.timestamp_ms then q ∷ later else r ∷ q ∷ log

unfoldable pub sort_by_time : Log → Log
unfolding insert_by_time
sort_by_time [] = []
sort_by_time (r ∷ log) = insert_by_time r (sort_by_time log)

-- `WHERE pubkey = ?`
unfoldable pub rows_of : Bytes → Log → Log
rows_of pubkey [] = []
rows_of pubkey (r ∷ log) = if r.pubkey == pubkey then r ∷ rows_of pubkey log else rows_of pubkey log

unfoldable pub names : Log → List Bytes
names [] = []
names (r ∷ log) = r.username ∷ names log

unfoldable pub usernames_of : Bytes → Log → List Bytes
unfolding rows_of sort_by_time names
usernames_of pubkey log = names (sort_by_time (rows_of pubkey log))

-- `WHERE timestamp_ms > ?`
unfoldable pub newer : ℕ → Log → Log
unfolding int64_less
newer since_ms [] = []
newer since_ms (r ∷ log) =
    if int64_less since_ms r.timestamp_ms then r ∷ newer since_ms log else newer since_ms log

unfoldable pub claims_since : ℕ → ℕ → Log → Log
unfolding newer sort_by_time
claims_since since_ms limit log = take limit (sort_by_time (newer since_ms log))

unfoldable pub total_claims : Log → ℕ
total_claims log = length log

module _ (verify : Bytes → Bytes → Bytes → Bool) where
  unfoldable pub verify_claim_signature : Claim → Bool
  unfolding canonical_signing_bytes
  verify_claim_signature c =
      if not (eqb (length c.pubkey) 32)
      then false
      else (if not (eqb (length c.signature) 64)
          then false
          else (if not (eqb (length c.nonce) 16)
              then false
              else elim (canonical_signing_bytes c.username c.pubkey c.timestamp_ms c.nonce) [
                | err e ↦ false
                | ok bytes ↦ verify c.signature bytes c.pubkey
              ]))

  -- The checks before the log is asked.
  unfoldable pub check_claim : ℕ → Claim → Option AppendResult
  unfolding is_valid_username verify_claim_signature
  check_claim now c =
      if not (is_valid_username c.username)
      then some rejected_format
      else (if not (eqb (length c.pubkey) 32)
          then some rejected_format
          else (if not (eqb (length c.nonce) 16)
              then some rejected_format
              else (if not (eqb (length c.signature) 64)
                  then some rejected_format
                  else (if ltb ((now + accepted_clock_skew_ms) % 2 ^ 64) c.timestamp_ms
                      then some rejected_clock
                      else (if not (verify_claim_signature c) then some rejected_sig else none)))))

  unfoldable pub append_claim : ℕ → ℕ → Claim → Log → AppendResult × Log
  unfolding check_claim is_known
  append_claim clock now_ms c log =
      let now = if eqb now_ms 0 then clock else now_ms in
      let name = c_str c.username in
      elim (check_claim now c) [
        | some why ↦ (why, log)
        | none ↦
            if is_known name c.pubkey log
            then (already_known, log)
            else (accepted, log ++ record c { username = name } ∷ [])
      ]
