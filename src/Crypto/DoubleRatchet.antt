-- ===== src/Crypto/DoubleRatchet.antt =====
-- core/src/crypto/ratchet.cpp: the session of two users. X25519 is outside, like the rest of
-- libsodium; protobuf too: a message is the record that it parses to, and `none` if it does not
-- parse. A private key that the code draws at random is an argument, `fresh`. Memory that is wiped
-- before it is freed has no counterpart.
use fin_bit.Prelude.{
  ℕ, zero, suc, ◌+◌, ◌-◌, ◌%◌, ◌^◌, List, [], ◌∷◌, ◌++◌, Option, none, some, Bool, true, false, not,
  ◌&&◌, ◌||◌, Bytes, be32, Eq, ◌==◌, nat_eq, list_eq, pair_eq, length, take, drop, replicate, ltb,
  leb, eqb, if◌then◌else◌,
}
use fin_bit.Prelude.Dict.{lookup, erase}
use fin_bit.Prelude.Result.{Result, ok, err, ◌>>=◌}
use fin_bit.Crypto.Sodium.{Sodium}
use fin_bit.Crypto.X25519.{X25519}
use fin_bit.Crypto.SkippedKeys.{Skipped, emplace}
use fin_bit.Crypto.Aead.{xchacha20_encrypt, xchacha20_decrypt}
use fin_bit.Crypto.Hkdf.{hkdf_extract, hkdf_expand}
pub mod Failing
pub mod Skipping
pub mod Overtaking
pub mod Agreement
pub mod Exchange
pub mod Conversation
pub mod Forgery
mod Tests

abbrev pub max_skip : ℕ
max_skip = 1000

-- `FinBit-RK`
abbrev pub rk_info : Bytes
rk_info = b'F' ∷ b'i' ∷ b'n' ∷ b'B' ∷ b'i' ∷ b't' ∷ b'-' ∷ b'R' ∷ b'K' ∷ []

abbrev pub zero_key : Bytes
zero_key = replicate 32 0

-- A `RatchetMessage`.
pub record Message : Type 0 where
  pub header_dh_pub : Bytes
  pub pn : ℕ
  pub n : ℕ
  pub ciphertext : Bytes

pub record State : Type 0 where
  pub dhs_pub : Bytes
  pub dhs_priv : Bytes
  pub dhr_pub : Bytes
  pub have_dhr : Bool
  pub rk : Bytes
  pub cks : Bytes
  pub ckr : Bytes
  pub have_cks : Bool
  pub have_ckr : Bool
  pub ns : ℕ
  pub nr : ℕ
  pub pn : ℕ
  pub skipped : Skipped

abbrev pub new_state : State
new_state = record {
  dhs_pub = zero_key;
  dhs_priv = zero_key;
  dhr_pub = zero_key;
  have_dhr = false;
  rk = zero_key;
  cks = zero_key;
  ckr = zero_key;
  have_cks = false;
  have_ckr = false;
  ns = 0;
  nr = 0;
  pn = 0;
  skipped = [];
}

-- The exceptions.
pub data RatchetError : Type 0 where
  no_send_chain low_order no_key_pair skip_too_far hkdf_failed : RatchetError

-- What a method throws or returns, and the state it leaves.
abbrev pub Outcome : Type 0 → Type 0
Outcome A = Result RatchetError A × State

unfoldable pub compose_aad : Bytes → ℕ → ℕ → Bytes → Bytes
compose_aad header_dh_pub pn n outer = header_dh_pub ++ be32 pn ++ be32 n ++ outer

-- The 24-byte zero nonce.
abbrev pub zero_nonce : Bytes
zero_nonce = replicate 24 0

module _ (sodium : Sodium) where
  unfoldable pub kdf_rk : Bytes → Bytes → Result RatchetError (Bytes × Bytes)
  kdf_rk rk dh_out = elim (hkdf_expand sodium (hkdf_extract sodium rk dh_out) rk_info 64) [
    | err e ↦ err hkdf_failed
    | ok out ↦ ok (take 32 out, take 32 (drop 32 out))
  ]

  unfoldable pub kdf_ck : Bytes → Bytes × Bytes
  kdf_ck ck = (sodium.hmac ck (1 ∷ []), sodium.hmac ck (2 ∷ []))

  -- A round of the loop; `erase(begin())` drops the entry with the least key.
  unfoldable pub skip_one : State → State
  unfolding kdf_ck emplace
  skip_one s =
      let kept = if leb max_skip (length s.skipped) then drop 1 s.skipped else s.skipped in
      record s {
        ckr = (kdf_ck s.ckr).1;
        skipped = emplace (s.dhr_pub, s.nr) (kdf_ck s.ckr).0 kept;
        nr = s.nr + 1;
      }

  -- The loop runs once for each key that is passed over.
  unfoldable pub skip_loop : ℕ → ℕ → State → State
  skip_loop zero until s = s
  skip_loop (suc fuel) until s =
      let rest = skip_loop fuel until (skip_one s) in if ltb s.nr until then rest else s

  unfoldable pub skip_message_keys : ℕ → State → Outcome (Unit {0})
  unfolding skip_loop
  skip_message_keys until s =
      if not s.have_ckr
      then (ok tt, s)
      else (if ltb (s.nr + max_skip) until
          then (err skip_too_far, s)
          else (ok tt, skip_loop (until - s.nr) until s))

  unfoldable pub open_with : Bytes → Message → Bytes → Option Bytes
  open_with mk m outer =
      xchacha20_decrypt sodium mk zero_nonce m.ciphertext
        (compose_aad m.header_dh_pub m.pn m.n outer)

  unfoldable pub encrypt : Bytes → Bytes → State → Result RatchetError (Message × State)
  encrypt plaintext outer s =
      let mk = (kdf_ck s.cks).0 in
      if not s.have_cks
      then err no_send_chain
      else ok (
        record {
          header_dh_pub = s.dhs_pub;
          pn = s.pn;
          n = s.ns;
          ciphertext =
              xchacha20_encrypt sodium mk zero_nonce plaintext
                (compose_aad s.dhs_pub s.pn s.ns outer);
        },
        record s { cks = (kdf_ck s.cks).1; ns = (s.ns + 1) % 2 ^ 32 },
      )

  -- Step 4 of `decrypt`.
  unfoldable pub open_next : Message → Bytes → State → Outcome (Option Bytes)
  open_next m outer s = (
    ok (open_with (kdf_ck s.ckr).0 m outer),
    record s { ckr = (kdf_ck s.ckr).1; nr = (s.nr + 1) % 2 ^ 32 },
  )

module _ (sodium : Sodium) (x : X25519) where
  unfoldable pub x25519_keypair : Bytes → Result RatchetError Bytes
  x25519_keypair priv = elim (x.base priv) [ none ↦ err no_key_pair | some public ↦ ok public ]

  unfoldable pub x25519_dh : Bytes → Bytes → Result RatchetError Bytes
  x25519_dh priv peer_pub = elim (x.scalarmult priv peer_pub) [
    | none ↦ err low_order
    | some dh ↦ ok dh
  ]

  -- The new root key and chain key.
  unfoldable pub derive : Bytes → Bytes → Bytes → Result RatchetError (Bytes × Bytes)
  unfolding x25519_dh
  derive rk priv peer_pub = x25519_dh priv peer_pub >>= kdf_rk sodium rk

  -- `peer_dh_pub` is the prekey of the responder.
  unfoldable pub init_alice : Bytes → Bytes → Bytes → Result RatchetError State
  unfolding x25519_keypair
  init_alice fresh shared_secret peer_dh_pub = x25519_keypair fresh >>= λ public.
      derive shared_secret fresh peer_dh_pub >>= λ keys. ok (record new_state {
        dhs_pub = public;
        dhs_priv = fresh;
        dhr_pub = peer_dh_pub;
        have_dhr = true;
        rk = keys.0;
        cks = keys.1;
        have_cks = true;
      })

  -- The second half of `dh_ratchet`: a new key pair and the chain to send on.
  unfoldable pub renew : Bytes → State → Outcome (Unit {0})
  unfolding x25519_keypair
  renew fresh s = elim (x25519_keypair fresh) [
    | err e ↦ (err e, s)
    | ok public ↦
        let s' = record s { dhs_pub = public; dhs_priv = fresh } in
        elim (derive s.rk fresh s.dhr_pub) [
          | err e ↦ (err e, s')
          | ok keys ↦ (ok tt, record s' { rk = keys.0; cks = keys.1; have_cks = true })
        ]
  ]

  unfoldable pub dh_ratchet : Bytes → Bytes → State → Outcome (Unit {0})
  unfolding renew
  dh_ratchet fresh header_dh_pub s =
      let s' = record s { pn = s.ns; ns = 0; nr = 0; dhr_pub = header_dh_pub; have_dhr = true } in
      elim (derive s.rk s.dhs_priv header_dh_pub) [
        | err e ↦ (err e, s')
        | ok keys ↦ renew fresh (record s' { rk = keys.0; ckr = keys.1; have_ckr = true })
      ]

  -- `try { … } catch (...) { return std::nullopt; }` with what follows it.
  unfoldable pub or_refuse :
      Outcome (Unit {0}) → (State → Outcome (Option Bytes)) → Outcome (Option Bytes)
  or_refuse (ok done, s) next = next s
  or_refuse (err e, s) next = (ok none, s)

  -- A call with what follows it, where nothing is caught.
  unfoldable pub or_throw :
      Outcome (Unit {0}) → (State → Outcome (Option Bytes)) → Outcome (Option Bytes)
  or_throw (ok done, s) next = next s
  or_throw (err e, s) next = (err e, s)

  -- Steps 3 and 4.
  unfoldable pub decrypt_in_chain : Message → Bytes → State → Outcome (Option Bytes)
  unfolding skip_message_keys or_refuse open_next
  decrypt_in_chain m outer s = or_refuse (skip_message_keys sodium m.n s) (open_next sodium m outer)

  -- Step 2 and the following.
  unfoldable pub decrypt_new : Bytes → Message → Bytes → State → Outcome (Option Bytes)
  unfolding skip_message_keys or_refuse or_throw dh_ratchet decrypt_in_chain
  decrypt_new fresh m outer s =
      if not s.have_dhr || not (m.header_dh_pub == s.dhr_pub)
      then or_refuse (skip_message_keys sodium m.pn s)
          (λ s'. or_throw (dh_ratchet fresh m.header_dh_pub s') (decrypt_in_chain m outer))
      else decrypt_in_chain m outer s

  -- Step 1 and the following.
  unfoldable pub decrypt_message : Bytes → Message → Bytes → State → Outcome (Option Bytes)
  unfolding open_with decrypt_new
  decrypt_message fresh m outer s = elim (lookup (m.header_dh_pub, m.n) s.skipped) [
    | none ↦ decrypt_new fresh m outer s
    | some mk ↦ elim (open_with sodium mk m outer) [
      | none ↦ (ok none, s)
      | some pt ↦ (ok (some pt), record s { skipped = erase (m.header_dh_pub, m.n) s.skipped })
    ]
  ]

  unfoldable pub decrypt : Bytes → Option Message → Bytes → State → Outcome (Option Bytes)
  unfolding decrypt_message
  decrypt fresh none outer s = (ok none, s)
  decrypt fresh (some m) outer s =
      if not (eqb (length m.header_dh_pub) 32)
      then (ok none, s)
      else decrypt_message fresh m outer s

  -- The state is put back where nothing was opened; an exception leaves it as it is.
  unfoldable pub restore : State → Outcome (Option Bytes) → Outcome (Option Bytes)
  restore snapshot (ok none, s) = (ok none, snapshot)
  restore snapshot (ok (some pt), s) = (ok (some pt), s)
  restore snapshot (err e, s) = (err e, s)

  unfoldable pub try_decrypt : Bytes → Option Message → Bytes → State → Outcome (Option Bytes)
  unfolding restore decrypt
  try_decrypt fresh m outer s = restore s (decrypt fresh m outer s)

unfoldable pub init_bob : Bytes → Bytes → Bytes → State
init_bob shared_secret our_priv our_pub = record new_state {
  dhs_pub = our_pub;
  dhs_priv = our_priv;
  rk = shared_secret;
}

unfoldable pub header_matches_recv_chain : Option Message → State → Bool
header_matches_recv_chain none s = false
header_matches_recv_chain (some m) s =
    eqb (length m.header_dh_pub) 32
    && s.have_dhr
    && s.have_ckr
    && not (ltb s.nr m.n && ltb max_skip (m.n - s.nr))
    && m.header_dh_pub == s.dhr_pub
