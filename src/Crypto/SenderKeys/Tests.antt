-- ===== src/Crypto/SenderKeys/Tests.antt =====
-- A chain of a peer with a few messages.
use fin_bit.Prelude.{
  ◌≡◌, refl, [], ◌∷◌, Bytes, less, some, none, true, replicate, arith, inl, nat_eq, list_eq,
  pair_eq,
}
use fin_bit.Prelude.Dict.{lookup}
use fin_bit.Crypto.SkippedKeys.{key_less, insert_sorted, emplace}
use fin_bit.Crypto.Sodium.{toy_sodium, toy_sodium-IsSodium}
use fin_bit.Crypto.Aead.{xchacha20_decrypt}
use fin_bit.Crypto.SenderKeys.{
  Message, PerPeerChain, GroupSession, ratchet_chain_key, derive_message_key, decrypt_chain,
  open_with, advance_chain_to, advance_loop, skip_one,
}
use fin_bit.Crypto.SenderKeys.Skipping.{IsBehind}
use fin_bit.Crypto.SenderKeys.Replay as Replay
use fin_bit.Crypto.SenderKeys.Replay.{Decrypts, receive_messages}
use fin_bit.Crypto.SenderKeys.Delivery as Delivery
use fin_bit.Crypto.SenderKeys.Following.{Follows}
use fin_bit.Crypto.SenderKeys.Delivery.{sent}

abbrev seed : Bytes
seed = 5 ∷ []

abbrev fresh_chain : PerPeerChain
fresh_chain = record { chain_id = 1 ∷ []; chain_key = seed; next_index = 0; skipped = [] }

fresh_chain-IsBehind : IsBehind fresh_chain
unfolding lookup
fresh_chain-IsBehind = record { behind = λ id i mk h. absurd (ground arith) }

fresh_chain-Follows : Follows toy_sodium seed fresh_chain
fresh_chain-Follows = record { at_key = refl; right_keys = tt }

-- 16 zero bytes, then the plaintext.
abbrev third : Message
third = record {
  chain_id = 1 ∷ [];
  index = 2;
  ciphertext = 0 ∷ 0 ∷ 0 ∷ 0 ∷ 0 ∷ 0 ∷ 0 ∷ 0 ∷ 0 ∷ 0 ∷ 0 ∷ 0 ∷ 0 ∷ 0 ∷ 0 ∷ 0 ∷ 9 ∷ [];
}

abbrev after_third : PerPeerChain
after_third = record {
  chain_id = 1 ∷ [];
  chain_key = replicate 32 7;
  next_index = 3;
  skipped = ((1 ∷ [], 0), replicate 32 7) ∷ ((1 ∷ [], 1), replicate 32 7) ∷ [];
}

abbrev bad : Message
bad = record { chain_id = 1 ∷ []; index = 4; ciphertext = [] }

decrypt_chain_once_example :
    (decrypt_chain toy_sodium (receive_messages toy_sodium after_third ((bad, []) ∷ [])) third []).0
    ≡ none
unfolding decrypt_chain open_with advance_chain_to advance_loop skip_one emplace insert_sorted
    key_less less lookup xchacha20_decrypt ratchet_chain_key derive_message_key
decrypt_chain_once_example =
    Replay.decrypt_chain_once toy_sodium fresh_chain after_third third third [] [] (9 ∷ [])
      ((bad, []) ∷ []) fresh_chain-IsBehind refl (omega arith) (omega arith) refl refl refl

decrypt_chain-sent_example :
    (decrypt_chain toy_sodium
      (receive_messages toy_sodium fresh_chain ((bad, []) ∷ []))
      (sent toy_sodium seed (1 ∷ []) 2 (9 ∷ []) [])
      []).0
    ≡ some (9 ∷ [])
unfolding sent decrypt_chain open_with advance_chain_to advance_loop skip_one emplace insert_sorted
    key_less less lookup xchacha20_decrypt ratchet_chain_key derive_message_key
decrypt_chain-sent_example =
    Delivery.decrypt_chain-sent toy_sodium toy_sodium-IsSodium seed fresh_chain ((bad, []) ∷ [])
      (1 ∷ []) 2 (9 ∷ []) [] fresh_chain-Follows (omega arith, tt) (inl (replicate 32 7, refl))

abbrev own_session : GroupSession
own_session = record {
  own_chain_id = 1 ∷ [];
  own_chain_key = seed;
  own_next_index = 0;
  have_own_chain = true;
  peers = [];
}
