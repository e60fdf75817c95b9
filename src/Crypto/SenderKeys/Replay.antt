-- ===== src/Crypto/SenderKeys/Replay.antt =====
-- What the receiver does with a message, and that a message key is used at most once.
use fin_bit.Prelude.{
  ℕ, ◌+◌, ◌-◌, ◌%◌, ◌^◌, ◌≤◌, ◌<◌, ◌≡◌, refl, sym, ap, ◌∙◌, subst, List, [], ◌∷◌, Option, none,
  some, true, false, Bytes, ==_refl, nat_eq, list_eq, pair_eq, ltb, arith, Bool-cases, Option-cases,
  inl, inr, ◌⊎◌,
}
use fin_bit.Prelude.Dict.{lookup, erase, lookup-erase}
use fin_bit.Crypto.Sodium.{Sodium}
use fin_bit.Crypto.SenderKeys.{
  Message, PerPeerChain, max_skip, derive_message_key, ratchet_chain_key, advance_loop,
  advance_chain_to, open_with, decrypt_chain,
}
use fin_bit.Crypto.SenderKeys.Skipping.{IsBehind, IsSpent, Advances, advance_loop-Advances}

module _ (sodium : Sodium) where
  -- The chain at the index of a message that is not behind it.
  abbrev pub advanced : PerPeerChain → ℕ → PerPeerChain
  advanced c i = advance_loop sodium (i - c.next_index) i c

  abbrev pub past : PerPeerChain → PerPeerChain
  past a = record a {
    chain_key = ratchet_chain_key sodium a.chain_key;
    next_index = (a.next_index + 1) % 2 ^ 32;
  }

  -- The branches of a decryption.
  pub data Decrypts (c : PerPeerChain) (m : Message) (outer : Bytes)
      : Option Bytes × PerPeerChain → Type 0 where
    cached_forged :
        {mk : Bytes}
        → lookup (m.chain_id, m.index) c.skipped ≡ some mk
        → open_with sodium mk m outer ≡ none
        → Decrypts c m outer (none, c)
    cached_opened :
        {mk pt : Bytes}
        → lookup (m.chain_id, m.index) c.skipped ≡ some mk
        → open_with sodium mk m outer ≡ some pt
        → Decrypts c m outer (some pt, record c { skipped = erase (m.chain_id, m.index) c.skipped })
    refused :
        lookup (m.chain_id, m.index) c.skipped ≡ none
        → (m.index < c.next_index) ⊎ (max_skip + c.next_index < m.index)
        → Decrypts c m outer (none, c)
    forged :
        lookup (m.chain_id, m.index) c.skipped ≡ none
        → c.next_index ≤ m.index
        → m.index ≤ max_skip + c.next_index
        → open_with sodium (derive_message_key sodium (advanced c m.index).chain_key) m outer ≡ none
        → Decrypts c m outer (none, advanced c m.index)
    opened :
        {pt : Bytes}
        → lookup (m.chain_id, m.index) c.skipped ≡ none
        → c.next_index ≤ m.index
        → m.index ≤ max_skip + c.next_index
        → open_with sodium (derive_message_key sodium (advanced c m.index).chain_key) m outer
          ≡ some pt
        → Decrypts c m outer (some pt, past (advanced c m.index))

  advance_chain_to-in_reach :
      (c : PerPeerChain) (i : ℕ)
      → c.next_index ≤ i
      → i ≤ max_skip + c.next_index
      → advance_chain_to sodium c i ≡ (true, advanced c i)
  unfolding advance_chain_to
  advance_chain_to-in_reach c i h k =
      let a : ltb i c.next_index ≡ false = ground arith in
      let b : ltb max_skip (i - c.next_index) ≡ false = ground arith in
      rw (a, advance_chain_to) (rw (b, advance_chain_to) refl)

  advance_chain_to-too_far :
      (c : PerPeerChain) (i : ℕ)
      → max_skip + c.next_index < i
      → advance_chain_to sodium c i ≡ (false, c)
  unfolding advance_chain_to
  advance_chain_to-too_far c i k =
      let a : ltb i c.next_index ≡ false = ground arith in
      let b : ltb max_skip (i - c.next_index) ≡ true = ground arith in
      rw (a, advance_chain_to) (rw (b, advance_chain_to) refl)

  -- A message opens with the cached key of its index, which is then erased; or it is refused, being
  -- behind the chain or too far ahead; or the chain goes to its index, and past it if it opens.
  pub decrypt_chain-Decrypts :
      (c : PerPeerChain) (m : Message) (outer : Bytes)
      → Decrypts c m outer (decrypt_chain sodium c m outer)
  unfolding decrypt_chain
  decrypt_chain-Decrypts c m outer = elim (Option-cases (lookup (m.chain_id, m.index) c.skipped)) [
    | inr (mk, found) ↦ elim (Option-cases (open_with sodium mk m outer)) [
      | inl bad ↦ rw (found, decrypt_chain) (rw (bad, decrypt_chain) (cached_forged found bad))
      | inr (pt, good) ↦
          rw (found, decrypt_chain) (rw (good, decrypt_chain) (cached_opened found good))
    ]
    | inl missing ↦ elim (Bool-cases (ltb m.index c.next_index)) [
      | inl behind ↦
          rw (missing, decrypt_chain)
            (rw (behind, decrypt_chain) (refused missing (inl (ground arith))))
      | inr ahead ↦ elim (Bool-cases (ltb (max_skip + c.next_index) m.index)) [
        | inl far ↦
            let a = advance_chain_to-too_far c m.index (ground arith) in
            rw (missing, decrypt_chain)
              (rw (ahead, decrypt_chain)
                (rw (a, decrypt_chain) (refused missing (inr (ground arith)))))
        | inr near ↦
            let a = advance_chain_to-in_reach c m.index (ground arith) (ground arith) in
            elim (Option-cases (
              open_with sodium (derive_message_key sodium (advanced c m.index).chain_key) m
                outer)) [
                  | inl bad ↦
                      rw (missing, decrypt_chain)
                        (rw (ahead, decrypt_chain)
                          (rw (a, decrypt_chain)
                            (rw (bad, decrypt_chain)
                              (rw a (forged missing (ground arith) (ground arith) bad)))))
                  | inr (pt, good) ↦
                      rw (missing, decrypt_chain)
                        (rw (ahead, decrypt_chain)
                          (rw (a, decrypt_chain)
                            (rw (good, decrypt_chain)
                              (rw a (opened missing (ground arith) (ground arith) good)))))
                ]
      ]
    ]
  ]

  pub advances : (c : PerPeerChain) (i : ℕ) → c.next_index ≤ i → Advances sodium c i (advanced c i)
  advances c i h = advance_loop-Advances sodium (i - c.next_index) i c (omega arith)

  -- A message that opened has used up its index.
  opened-IsSpent :
      {c : PerPeerChain} {m : Message} {outer pt : Bytes} {c' : PerPeerChain}
      {r : Option Bytes × PerPeerChain}
      → Decrypts c m outer r
      → r ≡ (some pt, c')
      → IsBehind c
      → m.chain_id ≡ c.chain_id
      → m.index + 1 < 2 ^ 32
      → IsSpent r.1 m.index
  opened-IsSpent (cached_forged found bad) e b same small =
      absurd (ground (arith, ap (λ (x : Option Bytes × PerPeerChain). x.0) e))
  opened-IsSpent {c = c} {m = m} (cached_opened {mk = mk} found good) e b same small = (
    b.behind m.chain_id m.index mk found,
    lookup-erase (m.chain_id, m.index) (c.chain_id, m.index) c.skipped
        ∙ rw same (rw (==_refl {A = Bytes × ℕ} (c.chain_id, m.index)) refl),
  )
  opened-IsSpent (refused missing why) e b same small =
      absurd (ground (arith, ap (λ (x : Option Bytes × PerPeerChain). x.0) e))
  opened-IsSpent (forged missing le near bad) e b same small =
      absurd (ground (arith, ap (λ (x : Option Bytes × PerPeerChain). x.0) e))
  opened-IsSpent {c = c} {m = m} (opened missing le near good) e b same small =
      let a = advances c m.index le in
      (
        omega (arith, a.at_target),
        ap (λ i. lookup (i, m.index) (advanced c m.index).skipped) a.same_chain
            ∙ a.still_none m.index (ap (λ i. lookup (i, m.index) c.skipped) (sym same) ∙ missing)
                (inr (omega arith)),
      )

  -- A used index stays used, and the cache stays behind the chain.
  Decrypts-IsSpent :
      {c : PerPeerChain} {m : Message} {outer : Bytes} {r : Option Bytes × PerPeerChain} (i : ℕ)
      → Decrypts c m outer r
      → m.index + 1 < 2 ^ 32
      → IsSpent c i
      → IsSpent r.1 i × (r.1.chain_id ≡ c.chain_id)
  Decrypts-IsSpent i (cached_forged found bad) small s = (s, refl)
  Decrypts-IsSpent {c = c} {m = m} i (cached_opened found good) small s = (
    (s.0, ground (arith, lookup-erase (m.chain_id, m.index) (c.chain_id, i) c.skipped, s.1)),
    refl,
  )
  Decrypts-IsSpent i (refused missing why) small s = (s, refl)
  Decrypts-IsSpent {c = c} {m = m} i (forged missing le near bad) small s =
      let a = advances c m.index le in
      (
        (
          omega (arith, a.at_target, s.0),
          ap (λ k. lookup (k, i) (advanced c m.index).skipped) a.same_chain
              ∙ a.still_none i s.1 (inl s.0),
        ),
        a.same_chain,
      )
  Decrypts-IsSpent {c = c} {m = m} i (opened missing le near good) small s =
      let a = advances c m.index le in
      (
        (
          omega (arith, a.at_target, s.0),
          ap (λ k. lookup (k, i) (advanced c m.index).skipped) a.same_chain
              ∙ a.still_none i s.1 (inl s.0),
        ),
        a.same_chain,
      )

  -- The chain after any messages.
  abbrev pub receive_messages : PerPeerChain → List (Message × Bytes) → PerPeerChain
  receive_messages c [] = c
  receive_messages c ((m, outer) ∷ ms) = receive_messages (decrypt_chain sodium c m outer).1 ms

  abbrev pub AreSmall : List (Message × Bytes) → Type 0
  AreSmall [] = Unit
  AreSmall ((m, outer) ∷ ms) = (m.index + 1 < 2 ^ 32) × AreSmall ms

  receive_messages-IsSpent :
      (ms : List (Message × Bytes)) (c : PerPeerChain) (i : ℕ)
      → AreSmall ms
      → IsSpent c i
      → IsSpent (receive_messages c ms) i × ((receive_messages c ms).chain_id ≡ c.chain_id)
  receive_messages-IsSpent [] c i small s = (s, refl)
  receive_messages-IsSpent ((m, outer) ∷ ms) c i small s =
      let now = Decrypts-IsSpent i (decrypt_chain-Decrypts c m outer) small.0 s in
      let later = receive_messages-IsSpent ms (decrypt_chain sodium c m outer).1 i small.1 now.0 in
      (later.0, later.1 ∙ now.1)

  Decrypts-chain_id :
      {c : PerPeerChain} {m : Message} {outer : Bytes} {r : Option Bytes × PerPeerChain}
      → Decrypts c m outer r
      → r.1.chain_id ≡ c.chain_id
  Decrypts-chain_id (cached_forged found bad) = refl
  Decrypts-chain_id (cached_opened found good) = refl
  Decrypts-chain_id (refused missing why) = refl
  Decrypts-chain_id {c = c} {m = m} (forged missing le near bad) =
      (advances c m.index le).same_chain
  Decrypts-chain_id {c = c} {m = m} (opened missing le near good) =
      (advances c m.index le).same_chain

  -- Of a used index nothing opens.
  spent_refused :
      {c : PerPeerChain} {m : Message} {outer : Bytes} {r : Option Bytes × PerPeerChain}
      → Decrypts c m outer r
      → m.chain_id ≡ c.chain_id
      → IsSpent c m.index
      → r.0 ≡ none
  spent_refused (cached_forged found bad) same s = refl
  spent_refused {c = c} {m = m} (cached_opened {mk = mk} found good) same s =
      absurd (ground (arith, ap (λ i. lookup (i, m.index) c.skipped) same, found, s.1))
  spent_refused (refused missing why) same s = refl
  spent_refused (forged missing le near bad) same s = refl
  spent_refused (opened missing le near good) same s = absurd (omega (arith, s.0))

  -- After a message of a chain has opened, no message of that chain with the same index opens any
  -- more, whatever else is received in between, if the cache held earlier indices only and no index
  -- is the last of 32 bits.
  pub decrypt_chain_once :
      (c c' : PerPeerChain) (m again : Message) (outer outer' pt : Bytes)
      (ms : List (Message × Bytes))
      → IsBehind c
      → m.chain_id ≡ c.chain_id
      → m.index + 1 < 2 ^ 32
      → AreSmall ms
      → decrypt_chain sodium c m outer ≡ (some pt, c')
      → again.chain_id ≡ m.chain_id
      → again.index ≡ m.index
      → (decrypt_chain sodium (receive_messages c' ms) again outer').0 ≡ none
  decrypt_chain_once c c' m again outer outer' pt ms b same small smalls e same' index =
      let d = decrypt_chain-Decrypts c m outer in
      let to_c' : (decrypt_chain sodium c m outer).1 ≡ c' =
        ap (λ (x : Option Bytes × PerPeerChain). x.1) e in
      let spent : IsSpent c' m.index =
        subst (λ (x : PerPeerChain). IsSpent x m.index) to_c' (opened-IsSpent d e b same small) in
      let later = receive_messages-IsSpent ms c' m.index smalls spent in
      let chain : (receive_messages c' ms).chain_id ≡ c.chain_id =
        later.1 ∙ ap (λ (x : PerPeerChain). x.chain_id) (sym to_c') ∙ Decrypts-chain_id d in
      spent_refused (decrypt_chain-Decrypts (receive_messages c' ms) again outer')
        (same' ∙ same ∙ sym chain)
        (subst (λ i. IsSpent (receive_messages c' ms) i) (sym index) later.0)
