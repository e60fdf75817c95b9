-- ===== src/Crypto/SenderKeys.antt =====
-- core/src/crypto/sender_keys.cpp: group messages, each under a key of its sender's chain. Protobuf
-- is outside: a message is the record that it parses to, and `none` if it does not parse. The
-- random id and seed of a new chain are arguments.
use fin_bit.Prelude.{
  ℕ, zero, suc, ◌+◌, ◌-◌, ◌*◌, ◌%◌, ◌^◌, ◌≡◌, List, [], ◌∷◌, ◌++◌, Option, none, some, Bool, true,
  false, not, Bytes, be32, Eq, ◌==◌, nat_eq, list_eq, pair_eq, length, drop, replicate, ltb, leb,
  eqb, if◌then◌else◌,
}
use fin_bit.Prelude.Dict.{lookup, insert, erase}
use fin_bit.Prelude.Result.{Result, ok, err}
use fin_bit.Crypto.Sodium.{Sodium}
use fin_bit.Crypto.SkippedKeys.{Skipped, emplace}
use fin_bit.Crypto.Aead.{xchacha20_encrypt, xchacha20_decrypt}
pub mod Skipping
pub mod Replay
pub mod Following
pub mod Delivery
mod Tests

abbrev pub max_skip : ℕ
max_skip = 1000

-- A `SenderKeysMessage`.
pub record Message : Type 0 where
  pub chain_id : Bytes
  pub index : ℕ
  pub ciphertext : Bytes

-- A `SenderKeysDistribution`.
pub record Distribution : Type 0 where
  pub chain_id : Bytes
  pub chain_seed : Bytes
  pub start_index : ℕ

pub record PerPeerChain : Type 0 where
  pub chain_id : Bytes
  pub chain_key : Bytes
  pub next_index : ℕ
  pub skipped : Skipped

pub record GroupSession : Type 0 where
  pub own_chain_id : Bytes
  pub own_chain_key : Bytes
  pub own_next_index : ℕ
  pub have_own_chain : Bool
  pub peers : List (Bytes × PerPeerChain)

-- The exceptions.
pub data SenderKeysError : Type 0 where
  no_own_chain malformed_distribution wrong_field_sizes : SenderKeysError

unfoldable pub compose_aad : Bytes → ℕ → Bytes → Bytes
compose_aad chain_id index outer = chain_id ++ be32 index ++ outer

-- The 24-byte zero nonce.
abbrev pub zero_nonce : Bytes
zero_nonce = replicate 24 0

module _ (sodium : Sodium) where
  unfoldable pub derive_message_key : Bytes → Bytes
  derive_message_key ck = sodium.hmac ck (16 ∷ [])

  unfoldable pub ratchet_chain_key : Bytes → Bytes
  ratchet_chain_key ck = sodium.hmac ck (17 ∷ [])

  -- A round of the loop of advance_chain_to; `erase(begin())` drops the least entry.
  unfoldable pub skip_one : PerPeerChain → PerPeerChain
  unfolding emplace
  skip_one c =
      let kept = if leb max_skip (length c.skipped) then drop 1 c.skipped else c.skipped in
      record c {
        skipped = emplace (c.chain_id, c.next_index) (derive_message_key c.chain_key) kept;
        chain_key = ratchet_chain_key c.chain_key;
        next_index = c.next_index + 1;
      }

  unfoldable pub advance_loop : ℕ → ℕ → PerPeerChain → PerPeerChain
  advance_loop zero target c = c
  advance_loop (suc fuel) target c =
      let rest = advance_loop fuel target (skip_one c) in
      if ltb c.next_index target then rest else c

  -- The loop runs once for each index that is passed over.
  unfoldable pub advance_chain_to : PerPeerChain → ℕ → Bool × PerPeerChain
  unfolding advance_loop
  advance_chain_to c target =
      if ltb target c.next_index
      then (false, c)
      else (if ltb max_skip (target - c.next_index)
          then (false, c)
          else (true, advance_loop (target - c.next_index) target c))

  unfoldable pub open_with : Bytes → Message → Bytes → Option Bytes
  open_with mk m outer =
      xchacha20_decrypt sodium mk zero_nonce m.ciphertext (compose_aad m.chain_id m.index outer)

  -- `decrypt` from the skipped cache on, for the chain of the sender.
  unfoldable pub decrypt_chain : PerPeerChain → Message → Bytes → Option Bytes × PerPeerChain
  decrypt_chain c m outer = elim (lookup (m.chain_id, m.index) c.skipped) [
    | some mk ↦ elim (open_with mk m outer) [
      | none ↦ (none, c)
      | some pt ↦ (some pt, record c { skipped = erase (m.chain_id, m.index) c.skipped })
    ]
    | none ↦
        let a = advance_chain_to c m.index in
        if ltb m.index c.next_index
        then (none, c)
        else (if not a.0
            then (none, c)
            else elim (open_with (derive_message_key a.1.chain_key) m outer) [
              | none ↦ (none, a.1)
              | some pt ↦ (
                some pt,
                record a.1 {
                  chain_key = ratchet_chain_key a.1.chain_key;
                  next_index = (a.1.next_index + 1) % 2 ^ 32;
                },
              )
            ])
  ]

  unfoldable pub decrypt :
      Bytes → Option Message → Bytes → GroupSession → Option Bytes × GroupSession
  unfolding decrypt_chain
  decrypt peer_id none outer s = (none, s)
  decrypt peer_id (some m) outer s =
      if not (eqb (length m.chain_id) 16) then (none, s) else elim (lookup peer_id s.peers) [
        | none ↦ (none, s)
        | some c ↦
            let r = decrypt_chain c m outer in
            if not (c.chain_id == m.chain_id)
            then (none, s)
            else (r.0, record s { peers = insert peer_id r.1 s.peers })
      ]

  unfoldable pub encrypt :
      Bytes → Bytes → GroupSession → Result SenderKeysError (Message × GroupSession)
  encrypt plaintext outer s =
      let mk = derive_message_key s.own_chain_key in
      let aad = compose_aad s.own_chain_id s.own_next_index outer in
      if not s.have_own_chain
      then err no_own_chain
      else ok (
        record {
          chain_id = s.own_chain_id;
          index = s.own_next_index;
          ciphertext = xchacha20_encrypt sodium mk zero_nonce plaintext aad;
        },
        record s {
          own_next_index = (s.own_next_index + 1) % 2 ^ 32;
          own_chain_key = ratchet_chain_key s.own_chain_key;
        },
      )

unfoldable pub create_own_send_chain : Bytes → Bytes → GroupSession → Distribution × GroupSession
create_own_send_chain id seed s = (
  record { chain_id = id; chain_seed = seed; start_index = 0 },
  record s { own_chain_id = id; own_chain_key = seed; own_next_index = 0; have_own_chain = true },
)

unfoldable pub install_peer_distribution :
    Bytes → Option Distribution → GroupSession → Result SenderKeysError GroupSession
install_peer_distribution peer_id none s = err malformed_distribution
install_peer_distribution peer_id (some d) s =
    if not (eqb (length d.chain_id) 16)
    then err wrong_field_sizes
    else (if not (eqb (length d.chain_seed) 32)
        then err wrong_field_sizes
        else ok (record s {
          peers =
              insert peer_id
                (record {
                  chain_id = d.chain_id;
                  chain_key = d.chain_seed;
                  next_index = d.start_index;
                  skipped = [];
                })
                s.peers;
        }))

unfoldable pub remove_peer : Bytes → GroupSession → GroupSession
remove_peer peer_id s = record s { peers = erase peer_id s.peers }

unfoldable pub peer_count : GroupSession → ℕ
peer_count s = length s.peers
