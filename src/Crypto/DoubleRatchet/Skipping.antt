-- ===== src/Crypto/DoubleRatchet/Skipping.antt =====
-- core/src/crypto/ratchet.cpp: the cache of the keys that were passed over.
use fin_bit.Prelude.{
  ℕ, zero, suc, ◌+◌, ◌-◌, ◌≤◌, ◌≡◌, ap, List, [], ◌∷◌, Option, none, some, not, ◌||◌, Bytes, ◌==◌,
  nat_eq, list_eq, pair_eq, length, drop, length-drop, ltb, leb, eqb, if◌then◌else◌, arith,
  Bool-cases, Option-cases, inl, inr,
}
use fin_bit.Prelude.Dict.{lookup, length-erase-le}
use fin_bit.Prelude.Result.{ok, err}
use fin_bit.Crypto.Sodium.{Sodium}
use fin_bit.Crypto.X25519.{X25519}
use fin_bit.Crypto.SkippedKeys.{Skipped, length-emplace-le}
use fin_bit.Crypto.DoubleRatchet.{
  Message, State, Outcome, max_skip, kdf_ck, skip_one, skip_loop, skip_message_keys, open_with,
  open_next, renew, dh_ratchet, or_refuse, or_throw, decrypt_in_chain, decrypt_new, decrypt_message,
  decrypt,
}

abbrev pub IsCapped : State → Type 0
IsCapped s = length s.skipped ≤ max_skip

module _ (sodium : Sodium) where
  skip_one-IsCapped : (s : State) → IsCapped s → IsCapped (skip_one sodium s)
  unfolding skip_one
  skip_one-IsCapped s c =
      let kept = if leb max_skip (length s.skipped) then drop 1 s.skipped else s.skipped in
      let room : length kept + 1 ≤ max_skip = ground (arith, length-drop 1 s.skipped) in
      omega (arith, length-emplace-le (s.dhr_pub, s.nr) (kdf_ck sodium s.ckr).0 kept, room)

  skip_loop-IsCapped :
      (fuel until : ℕ) (s : State) → IsCapped s → IsCapped (skip_loop sodium fuel until s)
  unfolding skip_loop
  skip_loop-IsCapped zero until s c = c
  skip_loop-IsCapped (suc fuel) until s c = elim (Bool-cases (ltb s.nr until)) [
    | inl more ↦
        rw (more, skip_loop)
          (skip_loop-IsCapped fuel until (skip_one sodium s) (skip_one-IsCapped s c))
    | inr done ↦ rw (done, skip_loop) c
  ]

  skip_message_keys-IsCapped :
      (until : ℕ) (s : State) → IsCapped s → IsCapped (skip_message_keys sodium until s).1
  unfolding skip_message_keys
  skip_message_keys-IsCapped until s c = elim (Bool-cases (not s.have_ckr)) [
    | inl missing ↦ rw (missing, skip_message_keys) c
    | inr there ↦ elim (Bool-cases (ltb (s.nr + max_skip) until)) [
      | inl far ↦ rw (there, far, skip_message_keys) c
      | inr near ↦ rw (there, near, skip_message_keys) (skip_loop-IsCapped (until - s.nr) until s c)
    ]
  ]

module _ (sodium : Sodium) (x : X25519) where
  or_refuse-IsCapped :
      (r : Outcome (Unit {0})) (next : State → Outcome (Option Bytes))
      → IsCapped r.1
      → ((s : State) → IsCapped s → IsCapped (next s).1)
      → IsCapped (or_refuse sodium x r next).1
  unfolding or_refuse
  or_refuse-IsCapped (ok done, s) next c keep = keep s c
  or_refuse-IsCapped (err e, s) next c keep = c

  or_throw-IsCapped :
      (r : Outcome (Unit {0})) (next : State → Outcome (Option Bytes))
      → IsCapped r.1
      → ((s : State) → IsCapped s → IsCapped (next s).1)
      → IsCapped (or_throw sodium x r next).1
  unfolding or_throw
  or_throw-IsCapped (ok done, s) next c keep = keep s c
  or_throw-IsCapped (err e, s) next c keep = c

  decrypt_in_chain-IsCapped :
      (m : Message) (outer : Bytes) (s : State)
      → IsCapped s
      → IsCapped (decrypt_in_chain sodium x m outer s).1
  unfolding decrypt_in_chain open_next
  decrypt_in_chain-IsCapped m outer s c =
      or_refuse-IsCapped (skip_message_keys sodium m.n s) _
        (skip_message_keys-IsCapped sodium m.n s c) (λ s' c'. c')

  -- A DH step leaves the cache alone, also where it throws.
  dh_ratchet-skipped :
      (fresh header_dh_pub : Bytes) (s : State)
      → (dh_ratchet sodium x fresh header_dh_pub s).1.skipped ≡ s.skipped
  unfolding dh_ratchet renew
  dh_ratchet-skipped fresh header_dh_pub s = ground arith

  decrypt_new-IsCapped :
      (fresh : Bytes) (m : Message) (outer : Bytes) (s : State)
      → IsCapped s
      → IsCapped (decrypt_new sodium x fresh m outer s).1
  unfolding decrypt_new
  decrypt_new-IsCapped fresh m outer s c =
      elim (Bool-cases (not s.have_dhr || not (m.header_dh_pub == s.dhr_pub))) [
        | inr same ↦ rw (same, decrypt_new) (decrypt_in_chain-IsCapped m outer s c)
        | inl new ↦
            rw (new, decrypt_new)
              (or_refuse-IsCapped (skip_message_keys sodium m.pn s) _
                (skip_message_keys-IsCapped sodium m.pn s c)
                (λ s' c'.
                  or_throw-IsCapped (dh_ratchet sodium x fresh m.header_dh_pub s')
                    (decrypt_in_chain sodium x m outer)
                    (rw (dh_ratchet-skipped fresh m.header_dh_pub s') c')
                    (decrypt_in_chain-IsCapped m outer)))
      ]

  decrypt_message-IsCapped :
      (fresh : Bytes) (m : Message) (outer : Bytes) (s : State)
      → IsCapped s
      → IsCapped (decrypt_message sodium x fresh m outer s).1
  unfolding decrypt_message
  decrypt_message-IsCapped fresh m outer s c =
      elim (Option-cases (lookup (m.header_dh_pub, m.n) s.skipped)) [
        | inl missing ↦ rw (missing, decrypt_message) (decrypt_new-IsCapped fresh m outer s c)
        | inr (mk, found) ↦ elim (Option-cases (open_with sodium mk m outer)) [
          | inl bad ↦ rw (found, decrypt_message) (rw (bad, decrypt_message) c)
          | inr (pt, good) ↦
              rw (found, decrypt_message)
                (rw (good, decrypt_message)
                  (omega (arith, length-erase-le (m.header_dh_pub, m.n) s.skipped)))
        ]
      ]

  decrypt-IsCapped :
      (fresh : Bytes) (m : Option Message) (outer : Bytes) (s : State)
      → IsCapped s
      → IsCapped (decrypt sodium x fresh m outer s).1
  unfolding decrypt
  decrypt-IsCapped fresh none outer s c = c
  decrypt-IsCapped fresh (some m) outer s c = elim (Bool-cases (eqb (length m.header_dh_pub) 32)) [
    | inr bad ↦ rw (bad, decrypt) c
    | inl good ↦ rw (good, decrypt) (decrypt_message-IsCapped fresh m outer s c)
  ]

  -- The state after a series of messages, each with the key that the receiver draws for it and
  -- the additional data.
  abbrev pub receive_all : State → List (Bytes × Option Message × Bytes) → State
  receive_all s [] = s
  receive_all s ((fresh, m, outer) ∷ rest) = receive_all (decrypt sodium x fresh m outer s).1 rest

  receive_all-IsCapped :
      (arrivals : List (Bytes × Option Message × Bytes)) (s : State)
      → IsCapped s
      → IsCapped (receive_all s arrivals)
  receive_all-IsCapped [] s c = c
  receive_all-IsCapped ((fresh, m, outer) ∷ rest) s c =
      receive_all-IsCapped rest (decrypt sodium x fresh m outer s).1
        (decrypt-IsCapped fresh m outer s c)

  -- Whatever messages arrive, genuine, forged or malformed, a session that started with an empty
  -- cache never keeps more than 1000 keys.
  pub receive_all_capped :
      (arrivals : List (Bytes × Option Message × Bytes)) (s : State)
      → s.skipped ≡ []
      → length (receive_all s arrivals).skipped ≤ max_skip
  receive_all_capped arrivals s empty =
      let c : IsCapped s = omega (arith, ap (λ (m : Skipped). length m) empty) in
      receive_all-IsCapped arrivals s c
