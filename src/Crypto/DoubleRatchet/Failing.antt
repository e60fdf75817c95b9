-- ===== src/Crypto/DoubleRatchet/Failing.antt =====
-- core/src/crypto/ratchet.cpp: `try_decrypt` puts the state back, but not when `decrypt` throws.
use fin_bit.Prelude.{
  ◌≡◌, refl, Option, none, some, true, not, ◌||◌, Bytes, ◌==◌, nat_eq, list_eq, pair_eq, length,
  eqb, arith, ◌⊎◌, inl, inr,
}
use fin_bit.Prelude.Dict.{lookup}
use fin_bit.Prelude.Result.{ok, err}
use fin_bit.Crypto.Sodium.{Sodium}
use fin_bit.Crypto.X25519.{X25519}
use fin_bit.Crypto.DoubleRatchet.{
  Message, State, Outcome, RatchetError, low_order, derive, x25519_dh, dh_ratchet, or_refuse,
  or_throw, decrypt_new, decrypt_message, decrypt, restore, try_decrypt,
}
use fin_bit.Crypto.DoubleRatchet.Agreement.{skip_none}

restored :
    (sodium : Sodium) (x : X25519) (s : State) (r : Outcome (Option Bytes))
    → (restore sodium x s r ≡ (ok none, s))
      ⊎ ((pt : Bytes) × (r.0 ≡ ok (some pt)) × (restore sodium x s r ≡ r))
      ⊎ ((e : RatchetError) × (r.0 ≡ err e) × (restore sodium x s r ≡ r))
unfolding restore
restored sodium x s (ok none, s') = inl refl
restored sodium x s (ok (some pt), s') = inr (inl (pt, refl, refl))
restored sodium x s (err e, s') = inr (inr (e, refl, refl))

module _ (sodium : Sodium) (x : X25519) where
  -- `try_decrypt` refuses the message and leaves the state as it was; or it opens the message, or
  -- throws, with the result and the state of `decrypt`.
  pub try_decrypt-restored :
      (fresh : Bytes) (m : Option Message) (outer : Bytes) (s : State)
      → (try_decrypt sodium x fresh m outer s ≡ (ok none, s))
        ⊎ ((pt : Bytes) × ((decrypt sodium x fresh m outer s).0 ≡ ok (some pt))
            × (try_decrypt sodium x fresh m outer s ≡ decrypt sodium x fresh m outer s))
        ⊎ ((e : RatchetError) × ((decrypt sodium x fresh m outer s).0 ≡ err e)
            × (try_decrypt sodium x fresh m outer s ≡ decrypt sodium x fresh m outer s))
  unfolding try_decrypt
  try_decrypt-restored fresh m outer s = restored sodium x s (decrypt sodium x fresh m outer s)

  -- A message that nobody has sealed, whose header key is a point of low order, makes
  -- `try_decrypt` throw and leave a state that takes that point for the key of the peer and counts
  -- from zero, if nothing is in the cache of the session under that point, the point is not the
  -- key of the peer already, and the message says that the chain before had as many messages as
  -- the session has received.
  pub try_decrypt_low_order :
      (fresh outer : Bytes) (m : Message) (s : State)
      → length m.header_dh_pub ≡ 32
      → x.scalarmult s.dhs_priv m.header_dh_pub ≡ none
      → lookup (m.header_dh_pub, m.n) s.skipped ≡ none
      → (not s.have_dhr || not (m.header_dh_pub == s.dhr_pub)) ≡ true
      → m.pn ≡ s.nr
      → try_decrypt sodium x fresh (some m) outer s ≡ (
        err low_order,
        record s { pn = s.ns; ns = 0; nr = 0; dhr_pub = m.header_dh_pub; have_dhr = true },
      )
  unfolding try_decrypt restore decrypt decrypt_message decrypt_new or_refuse or_throw dh_ratchet
      derive x25519_dh
  try_decrypt_low_order fresh outer m s size low missing new count =
      let e : eqb (length m.header_dh_pub) 32 ≡ true = ground arith in
      rw (e, decrypt)
        (rw (missing, decrypt_message)
          (rw (new, decrypt_new)
            (rw (skip_none sodium m.pn s (λ _. count), or_refuse)
              (rw (low, restore, or_throw, dh_ratchet, derive, x25519_dh) refl))))
