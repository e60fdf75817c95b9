-- ===== src/Crypto/SenderKeys/Delivery.antt =====
-- Messages of the sender open, whatever else has been received.
use fin_bit.Prelude.{
  ℕ, ◌+◌, ◌-◌, ◌%◌, ◌^◌, ◌≤◌, ◌<◌, ◌≡◌, sym, ap, ◌∙◌, List, [], ◌∷◌, Option, none, some, Bool, true,
  not, Bytes, nat_eq, list_eq, pair_eq, if◌then◌else◌, arith, ◌⊎◌,
}
use fin_bit.Prelude.Dict.{lookup}
use fin_bit.Prelude.Result.{ok, err}
use fin_bit.Crypto.Sodium.{Sodium, IsSodium}
use fin_bit.Crypto.Aead.{xchacha20_encrypt, xchacha20_decrypt-xchacha20_encrypt}
use fin_bit.Crypto.SenderKeys.{
  no_own_chain, Message, PerPeerChain, GroupSession, max_skip, compose_aad, zero_nonce,
  derive_message_key, ratchet_chain_key, open_with, decrypt_chain, encrypt,
}
use fin_bit.Crypto.SenderKeys.Replay.{
  Decrypts, cached_forged, cached_opened, refused, forged, opened, advanced, advances,
  decrypt_chain-Decrypts, receive_messages, AreSmall,
}
use fin_bit.Crypto.SenderKeys.Following.{
  chain_at, key_at, Follows, chain_at-next, advance_loop-Follows, past-Follows, AreRight-lookup,
  AreRight-erase,
}

module _ (sodium : Sodium) where
  -- No message, forged or not, takes the receiver off the sender's chain.
  Decrypts-Follows :
      {c : PerPeerChain} {m : Message} {outer : Bytes} {r : Option Bytes × PerPeerChain}
      (seed : Bytes)
      → Decrypts sodium c m outer r
      → m.index + 1 < 2 ^ 32
      → Follows sodium seed c
      → Follows sodium seed r.1
  Decrypts-Follows seed (cached_forged found bad) small f = f
  Decrypts-Follows {c = c} {m = m} seed (cached_opened found good) small f = record {
    at_key = f.at_key;
    right_keys = AreRight-erase sodium seed (m.chain_id, m.index) c.skipped f.right_keys;
  }
  Decrypts-Follows seed (refused missing why) small f = f
  Decrypts-Follows {c = c} {m = m} seed (forged missing le near bad) small f =
      advance_loop-Follows sodium seed (m.index - c.next_index) m.index c f
  Decrypts-Follows {c = c} {m = m} seed (opened missing le near good) small f =
      past-Follows sodium seed (advanced sodium c m.index)
        (omega (arith, (advances sodium c m.index le).at_target))
        (advance_loop-Follows sodium seed (m.index - c.next_index) m.index c f)

  receive_messages-Follows :
      (seed : Bytes) (ms : List (Message × Bytes)) (c : PerPeerChain)
      → AreSmall sodium ms
      → Follows sodium seed c
      → Follows sodium seed (receive_messages sodium c ms)
  receive_messages-Follows seed [] c small f = f
  receive_messages-Follows seed ((m, outer) ∷ ms) c small f =
      receive_messages-Follows seed ms (decrypt_chain sodium c m outer).1 small.1
        (Decrypts-Follows seed (decrypt_chain-Decrypts sodium c m outer) small.0 f)

  -- The key of the index is cached, or ahead and within reach.
  abbrev pub IsWithin : PerPeerChain → Message → Type 0
  IsWithin c m =
      ((mk : Bytes) × (lookup (m.chain_id, m.index) c.skipped ≡ some mk))
      ⊎ ((c.next_index ≤ m.index) × (m.index ≤ max_skip + c.next_index))

  advanced-key :
      (seed : Bytes) (c : PerPeerChain) (i : ℕ)
      → c.next_index ≤ i
      → Follows sodium seed c
      → (advanced sodium c i).chain_key ≡ chain_at sodium seed i
  advanced-key seed c i le f =
      (advance_loop-Follows sodium seed (i - c.next_index) i c f).at_key
      ∙ ap (λ n. chain_at sodium seed n) (advances sodium c i le).at_target

  Decrypts-opens :
      {c : PerPeerChain} {m : Message} {outer : Bytes} {r : Option Bytes × PerPeerChain}
      (seed pt : Bytes)
      → Decrypts sodium c m outer r
      → Follows sodium seed c
      → IsWithin c m
      → open_with sodium (key_at sodium seed m.index) m outer ≡ some pt
      → r.0 ≡ some pt
  Decrypts-opens {c = c} {m = m} {outer = outer} seed pt (cached_forged {mk = mk} found bad) f w
        good =
      let e = AreRight-lookup sodium seed m.chain_id m.index mk c.skipped f.right_keys found in
      sym bad ∙ ap (λ k. open_with sodium k m outer) e ∙ good
  Decrypts-opens {c = c} {m = m} {outer = outer} seed pt (cached_opened {mk = mk} found opens) f w
        good =
      let e = AreRight-lookup sodium seed m.chain_id m.index mk c.skipped f.right_keys found in
      sym opens ∙ ap (λ k. open_with sodium k m outer) e ∙ good
  Decrypts-opens {c = c} {m = m} seed pt (refused missing why) f w good =
      absurd (ground (arith, missing, why, w))
  Decrypts-opens {c = c} {m = m} {outer = outer} seed pt (forged missing le near bad) f w good =
      sym bad
      ∙ ap (λ k. open_with sodium (derive_message_key sodium k) m outer)
          (advanced-key seed c m.index le f)
      ∙ good
  Decrypts-opens {c = c} {m = m} {outer = outer} seed pt (opened missing le near opens) f w good =
      sym opens
      ∙ ap (λ k. open_with sodium (derive_message_key sodium k) m outer)
          (advanced-key seed c m.index le f)
      ∙ good

  -- What the sender with this seed makes of its message number `i`.
  unfoldable pub sent : Bytes → Bytes → ℕ → Bytes → Bytes → Message
  sent seed id i plaintext outer = record {
    chain_id = id;
    index = i;
    ciphertext =
        xchacha20_encrypt sodium (key_at sodium seed i) zero_nonce plaintext
          (compose_aad id i outer);
  }

  -- The result of `encrypt` with the message key of the chain key `k`.
  abbrev made : Bytes → Bytes → Bytes → GroupSession → Message × GroupSession
  made k plaintext outer s = (
    record {
      chain_id = s.own_chain_id;
      index = s.own_next_index;
      ciphertext =
          xchacha20_encrypt sodium (derive_message_key sodium k) zero_nonce plaintext
            (compose_aad s.own_chain_id s.own_next_index outer);
    },
    record s {
      own_next_index = (s.own_next_index + 1) % 2 ^ 32;
      own_chain_key = ratchet_chain_key sodium s.own_chain_key;
    },
  )

  -- A session whose own chain has gone `n` steps from its seed encrypts its next message as number
  -- `n` of that chain and goes one step further.
  pub encrypt-sent :
      (seed plaintext outer : Bytes) (s : GroupSession)
      → s.have_own_chain ≡ true
      → s.own_chain_key ≡ chain_at sodium seed s.own_next_index
      → s.own_next_index + 1 < 2 ^ 32
      → (s' : GroupSession) × (encrypt sodium plaintext outer s
          ≡ ok (sent seed s.own_chain_id s.own_next_index plaintext outer, s'))
        × (s'.own_next_index ≡ s.own_next_index + 1)
        × (s'.own_chain_key ≡ chain_at sodium seed s'.own_next_index)
  unfolding encrypt sent
  encrypt-sent seed plaintext outer s have key small = (
    record s {
      own_next_index = (s.own_next_index + 1) % 2 ^ 32;
      own_chain_key = ratchet_chain_key sodium s.own_chain_key;
    },
    ap
          (λ (b : Bool).
            if not b then err no_own_chain else ok (made s.own_chain_key plaintext outer s))
          have
        ∙ ap (λ k. ok (made k plaintext outer s)) key,
    omega arith,
    ap (λ k. ratchet_chain_key sodium k) key
        ∙ chain_at-next sodium seed s.own_next_index ((s.own_next_index + 1) % 2 ^ 32)
            (omega arith),
  )

module _ (sodium : Sodium) (h : IsSodium sodium) where
  -- After any messages with indices below 2^32 - 1, forged ones too, a message of the sender opens with
  -- its plaintext if the chain followed the sender's before them, and the key of the message is cached
  -- or its index is ahead of the chain by at most 1000.
  pub decrypt_chain-sent :
      (seed : Bytes) (c : PerPeerChain) (ms : List (Message × Bytes)) (id : Bytes) (i : ℕ)
      (plaintext outer : Bytes)
      → Follows sodium seed c
      → AreSmall sodium ms
      → IsWithin sodium (receive_messages sodium c ms) (sent sodium seed id i plaintext outer)
      → (decrypt_chain sodium
          (receive_messages sodium c ms)
          (sent sodium seed id i plaintext outer)
          outer).0
        ≡ some plaintext
  unfolding sent open_with
  decrypt_chain-sent seed c ms id i plaintext outer f small w =
      let m : Message = sent sodium seed id i plaintext outer in
      Decrypts-opens sodium seed plaintext
        (decrypt_chain-Decrypts sodium (receive_messages sodium c ms) m outer)
        (receive_messages-Follows sodium seed ms c small f) w
        (xchacha20_decrypt-xchacha20_encrypt sodium h (key_at sodium seed i) zero_nonce plaintext
          (compose_aad id i outer))

module _ (sodium : Sodium) where
  -- A message that does not open, ahead of the chain by at most 1000 and without a cached key, still
  -- moves the chain to its index.
  pub decrypt_chain_forged :
      (c : PerPeerChain) (m : Message) (outer : Bytes)
      → lookup (m.chain_id, m.index) c.skipped ≡ none
      → c.next_index ≤ m.index
      → m.index ≤ max_skip + c.next_index
      → (decrypt_chain sodium c m outer).0 ≡ none
      → (decrypt_chain sodium c m outer).1.next_index ≡ m.index
  decrypt_chain_forged c m outer missing le near bad =
      moved (decrypt_chain-Decrypts sodium c m outer) bad missing le near
    where
      moved :
          {c : PerPeerChain} {m : Message} {outer : Bytes} {r : Option Bytes × PerPeerChain}
          → Decrypts sodium c m outer r
          → r.0 ≡ none
          → lookup (m.chain_id, m.index) c.skipped ≡ none
          → c.next_index ≤ m.index
          → m.index ≤ max_skip + c.next_index
          → r.1.next_index ≡ m.index
      moved (cached_forged found bad) e missing le near = absurd (ground (arith, found, missing))
      moved (cached_opened found good) e missing le near = absurd (ground (arith, found, missing))
      moved (refused none_there why) e missing le near = absurd (ground (arith, why))
      moved {c = c} {m = m} (forged none_there le' near' bad) e missing le near =
          (advances sodium c m.index le).at_target
      moved (opened none_there le' near' good) e missing le near = absurd (ground (arith, e))
