-- ===== src/Crypto/DoubleRatchet/Forgery.antt =====
-- core/src/crypto/ratchet.cpp: a new session of the initiator has no receiving chain, but knows the
-- prekey of the responder: a message under that header key skips the DH step.
use fin_bit.Prelude.{
  ◌≡◌, ap, ◌∙◌, sym, [], Option, some, true, false, not, ◌||◌, Bytes, ◌==◌, ==_iff, nat_eq, list_eq,
  pair_eq, length, arith,
}
use fin_bit.Prelude.Result.{ok}
use fin_bit.Crypto.Sodium.{Sodium, IsSodium}
use fin_bit.Crypto.X25519.{X25519}
use fin_bit.Crypto.DoubleRatchet.{
  State, Outcome, zero_key, new_state, init_alice, x25519_keypair, decrypt_new, try_decrypt,
  restore,
}
use fin_bit.Crypto.DoubleRatchet.Agreement.{said, heard}
use fin_bit.Crypto.DoubleRatchet.Exchange.{decrypt-fresh, decrypt_in_chain-said}

-- What anybody can make who knows the public prekey of the responder.
abbrev pub forger : Bytes → State
forger prekey = record new_state { dhs_pub = prekey; have_cks = true }

record IsNew (prekey : Bytes) (s : State) : Type 0 where
  skipped_none : s.skipped ≡ []
  has_dhr : s.have_dhr ≡ true
  knows : s.dhr_pub ≡ prekey
  no_chain : s.have_ckr ≡ false
  zero_chain : s.ckr ≡ zero_key
  none_received : s.nr ≡ 0

init_alice-IsNew :
    (sodium : Sodium) (x : X25519) (key secret prekey : Bytes) (alice : State)
    → init_alice sodium x key secret prekey ≡ ok alice
    → IsNew prekey alice
unfolding init_alice x25519_keypair
init_alice-IsNew sodium x key secret prekey alice e = ground arith

module _ (sodium : Sodium) (h : IsSodium sodium) (x : X25519) where
  -- A session of `init_alice` that has received nothing opens a message that was sealed without
  -- any secret, by the chain key of zeros, under the public prekey of the responder: whatever the
  -- forger wrote is taken for a message of the responder.
  pub try_decrypt_forged :
      (key secret prekey fresh plaintext outer : Bytes) (alice : State)
      → length prekey ≡ 32
      → init_alice sodium x key secret prekey ≡ ok alice
      → (try_decrypt sodium x fresh
          (some (said sodium plaintext outer (forger prekey)))
          outer
          alice).0
        ≡ ok (some plaintext)
  unfolding try_decrypt restore decrypt_new
  try_decrypt_forged key secret prekey fresh plaintext outer alice size e =
      let new = init_alice-IsNew sodium x key secret prekey alice e in
      let m = said sodium plaintext outer (forger prekey) in
      let known : (not alice.have_dhr || not (prekey == alice.dhr_pub)) ≡ false =
        ground (arith, new.has_dhr, ==_iff prekey alice.dhr_pub, new.knows) in
      let opened : decrypt_new sodium x fresh m outer alice
          ≡ (ok (some plaintext), heard sodium alice) =
        rw (known, decrypt_new)
          (decrypt_in_chain-said sodium h x plaintext outer (forger prekey) alice new.zero_chain
            (sym new.none_received)) in
      ap (λ (r : Outcome (Option Bytes)). (restore sodium x alice r).0)
        (decrypt-fresh sodium x fresh outer m alice size new.skipped_none ∙ opened)
