-- ===== src/Crypto/DoubleRatchet/Tests.antt =====
-- A few sessions over the toy primitives.
use fin_bit.Prelude.{
  ◌≡◌, refl, [], ◌∷◌, map, Bytes, some, none, true, false, replicate, length, ◌≤◌, nat_eq, list_eq,
  pair_eq,
}
use fin_bit.Prelude.Collections.{contains}
use fin_bit.Prelude.Dict.{lookup}
use fin_bit.Prelude.Result.{ok, err}
use fin_bit.Crypto.Sodium.{toy_sodium, toy_sodium-IsSodium}
use fin_bit.Crypto.Hkdf.{hkdf_expand, expand_blocks}
use fin_bit.Crypto.X25519.{toy_x25519, toy_x25519-IsX25519}
use fin_bit.Crypto.DoubleRatchet.{
  Message, State, new_state, low_order, max_skip, zero_key, init_alice, init_bob, derive, kdf_rk,
  try_decrypt,
}
use fin_bit.Crypto.DoubleRatchet.Agreement.{said}
use fin_bit.Crypto.DoubleRatchet.Skipping as Skipping
use fin_bit.Crypto.DoubleRatchet.Skipping.{receive_all}
use fin_bit.Crypto.DoubleRatchet.Overtaking as Overtaking
use fin_bit.Crypto.DoubleRatchet.Overtaking.{IsAt}
use fin_bit.Crypto.DoubleRatchet.Conversation as Conversation
use fin_bit.Crypto.DoubleRatchet.Conversation.{Line, talk, as_sent}
use fin_bit.Crypto.DoubleRatchet.Failing as Failing
use fin_bit.Crypto.DoubleRatchet.Forgery as Forgery
use fin_bit.Crypto.DoubleRatchet.Forgery.{forger}

abbrev secret : Bytes
secret = replicate 32 9

abbrev alice_key : Bytes
alice_key = replicate 32 10

abbrev bob_key : Bytes
bob_key = replicate 32 20

abbrev bob_pub : Bytes
bob_pub = replicate 32 21

abbrev hello : Line
hello = record { by_alice = true; plaintext = 1 ∷ []; outer = []; fresh = replicate 32 30 }

abbrev answer : Line
answer = record {
  by_alice = false;
  plaintext = 2 ∷ 3 ∷ [];
  outer = 8 ∷ [];
  fresh = replicate 32 40;
}

abbrev again : Line
again = record { by_alice = false; plaintext = []; outer = []; fresh = replicate 32 50 }

talk-init_alice_example :
    (alice : State) × (init_alice toy_sodium toy_x25519 alice_key secret bob_pub ≡ ok alice)
    × (talk toy_sodium toy_x25519
          (hello ∷ answer ∷ again ∷ [])
          alice
          (init_bob secret bob_key bob_pub)
        ≡ map as_sent (hello ∷ answer ∷ again ∷ []))
unfolding contains
talk-init_alice_example =
    Conversation.talk-init_alice toy_sodium toy_sodium-IsSodium toy_x25519 toy_x25519-IsX25519
      secret alice_key bob_key (replicate 32 11) bob_pub hello (answer ∷ again ∷ []) refl refl refl
      (
        replicate 32 31,
        refl,
        refl,
        (replicate 32 41, refl, refl, (replicate 32 51, refl, refl, tt)),
      )

-- A message under a key of low order.
abbrev poison : Message
poison = record { header_dh_pub = zero_key; pn = 4; n = 0; ciphertext = [] }

abbrev session : State
session = record new_state {
  dhs_pub = replicate 32 11;
  dhs_priv = alice_key;
  dhr_pub = bob_pub;
  have_dhr = true;
  have_cks = true;
  have_ckr = true;
  cks = replicate 32 3;
  ckr = replicate 32 5;
  ns = 2;
  nr = 4;
}

receive_all_capped_example :
    length
      (receive_all toy_sodium toy_x25519 session
        ((alice_key, some poison, []) ∷ (bob_key, none, []) ∷ [])).skipped
    ≤ max_skip
receive_all_capped_example =
    Skipping.receive_all_capped toy_sodium toy_x25519
      ((alice_key, some poison, []) ∷ (bob_key, none, []) ∷ []) session refl

try_decrypt_low_order_example :
    try_decrypt toy_sodium toy_x25519 alice_key (some poison) [] session ≡ (
      err low_order,
      record session { pn = 2; ns = 0; nr = 0; dhr_pub = zero_key; have_dhr = true },
    )
unfolding lookup
try_decrypt_low_order_example =
    Failing.try_decrypt_low_order toy_sodium toy_x25519 alice_key [] poison session refl refl refl
      refl refl

-- The peer of the session.
abbrev peer : State
peer = record new_state {
  dhs_pub = bob_pub;
  dhs_priv = bob_key;
  cks = replicate 32 5;
  have_cks = true;
  ns = 4;
}

-- What `init_alice` returns with the toy key.
abbrev started : State
started = record new_state {
  dhs_pub = replicate 32 11;
  dhs_priv = alice_key;
  dhr_pub = bob_pub;
  have_dhr = true;
  rk = replicate 32 7;
  cks = replicate 32 7;
  have_cks = true;
}

try_decrypt_forged_example :
    (try_decrypt toy_sodium toy_x25519 bob_key
      (some (said toy_sodium (6 ∷ 6 ∷ []) [] (forger bob_pub)))
      []
      started).0
    ≡ ok (some (6 ∷ 6 ∷ []))
unfolding init_alice derive kdf_rk hkdf_expand expand_blocks
try_decrypt_forged_example =
    Forgery.try_decrypt_forged toy_sodium toy_sodium-IsSodium toy_x25519 alice_key secret bob_pub
      bob_key (6 ∷ 6 ∷ []) [] started refl refl
