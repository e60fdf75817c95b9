-- ===== src/Crypto/SenderKeys/Following.antt =====
-- A receiver's chain against the sender's: the keys it holds and those it comes to.
use fin_bit.Prelude.{
  ℕ, zero, suc, ◌+◌, ◌%◌, ◌^◌, ◌<◌, ◌≡◌, refl, sym, ap, ◌∙◌, [], ◌∷◌, some, Bytes, ◌==◌, ==_iff,
  nat_eq, list_eq, pair_eq, length, drop, ltb, leb, arith, Bool-cases, Option-cases, inl, inr,
}
use fin_bit.Prelude.Dict.{lookup, erase}
use fin_bit.Crypto.Sodium.{Sodium}
use fin_bit.Crypto.SkippedKeys.{Skipped, key_less, insert_sorted, emplace}
use fin_bit.Crypto.SenderKeys.{
  PerPeerChain, max_skip, derive_message_key, ratchet_chain_key, skip_one, advance_loop,
}
use fin_bit.Crypto.SenderKeys.Skipping.{kept}
use fin_bit.Crypto.SenderKeys.Replay.{past}

module _ (sodium : Sodium) where
  -- The sender's chain key after `n` messages.
  abbrev pub chain_at : Bytes → ℕ → Bytes
  chain_at seed zero = seed
  chain_at seed (suc n) = ratchet_chain_key sodium (chain_at seed n)

  abbrev pub key_at : Bytes → ℕ → Bytes
  key_at seed n = derive_message_key sodium (chain_at seed n)

  abbrev pub AreRight : Bytes → Skipped → Type 0
  AreRight seed [] = Unit
  AreRight seed (((id, i), mk) ∷ m) = (mk ≡ key_at seed i) × AreRight seed m

  -- A receiver's chain holds keys of the sender's chain.
  pub record Follows (seed : Bytes) (c : PerPeerChain) : Type 0 where
    pub at_key : c.chain_key ≡ chain_at seed c.next_index
    pub right_keys : AreRight seed c.skipped

  pub AreRight-lookup :
      (seed id : Bytes) (i : ℕ) (mk : Bytes) (m : Skipped)
      → AreRight seed m
      → lookup (id, i) m ≡ some mk
      → mk ≡ key_at seed i
  unfolding lookup
  AreRight-lookup seed id i mk [] r h = absurd (ground arith)
  AreRight-lookup seed id i mk (((id', i'), mk') ∷ m) r h =
      elim (Bool-cases (◌==◌ {A = Bytes × ℕ} (id', i') (id, i))) [
        | inl same ↦
            let e =
              ap (λ (p : Bytes × ℕ). p.1) ((==_iff {A = Bytes × ℕ} (id', i') (id, i)).0 same) in
            let is_mk : mk' ≡ mk = ground arith in sym is_mk ∙ r.0 ∙ ap (λ n. key_at seed n) e
        | inr other ↦ AreRight-lookup seed id i mk m r.1 (ground arith)
      ]

  AreRight-drop : (seed : Bytes) (m : Skipped) → AreRight seed m → AreRight seed (drop 1 m)
  AreRight-drop seed [] r = r
  AreRight-drop seed (((id, i), mk) ∷ m) r = r.1

  AreRight-insert_sorted :
      (seed id : Bytes) (i : ℕ) (mk : Bytes) (m : Skipped)
      → AreRight seed m
      → mk ≡ key_at seed i
      → AreRight seed (insert_sorted (id, i) mk m)
  unfolding insert_sorted
  AreRight-insert_sorted seed id i mk [] r h = (h, tt)
  AreRight-insert_sorted seed id i mk (((id', i'), mk') ∷ m) r h =
      elim (Bool-cases (key_less (id', i') (id, i))) [
        | inl after ↦ rw (after, insert_sorted) (r.0, AreRight-insert_sorted seed id i mk m r.1 h)
        | inr here ↦ rw (here, insert_sorted) (h, r)
      ]

  AreRight-emplace :
      (seed id : Bytes) (i : ℕ) (mk : Bytes) (m : Skipped)
      → AreRight seed m
      → mk ≡ key_at seed i
      → AreRight seed (emplace (id, i) mk m)
  unfolding emplace
  AreRight-emplace seed id i mk m r h = elim (Option-cases (lookup (id, i) m)) [
    | inl missing ↦ rw (missing, emplace) (AreRight-insert_sorted seed id i mk m r h)
    | inr (w, found) ↦ rw (found, emplace) r
  ]

  pub AreRight-erase :
      (seed : Bytes) (k : Bytes × ℕ) (m : Skipped) → AreRight seed m → AreRight seed (erase k m)
  unfolding erase
  AreRight-erase seed k [] r = r
  AreRight-erase seed k (((id, i), mk) ∷ m) r = elim (Bool-cases (◌==◌ {A = Bytes × ℕ} (id, i) k)) [
    | inl same ↦ rw (same, erase) (AreRight-erase seed k m r.1)
    | inr other ↦ rw (other, erase) (r.0, AreRight-erase seed k m r.1)
  ]

  pub chain_at-next :
      (seed : Bytes) (n m : ℕ)
      → m ≡ n + 1
      → ratchet_chain_key sodium (chain_at seed n) ≡ chain_at seed m
  chain_at-next seed n zero e = absurd (omega arith)
  chain_at-next seed n (suc m) e =
      let same : n ≡ m = omega arith in ap (λ k. ratchet_chain_key sodium (chain_at seed k)) same

  skip_one-Follows :
      (seed : Bytes) (c : PerPeerChain) → Follows seed c → Follows seed (skip_one sodium c)
  unfolding skip_one
  skip_one-Follows seed c f = record {
    at_key =
        ap (λ k. ratchet_chain_key sodium k) f.at_key
        ∙ chain_at-next seed c.next_index (c.next_index + 1) refl;
    right_keys =
        AreRight-emplace seed c.chain_id c.next_index (derive_message_key sodium c.chain_key)
          (kept c)
          (elim (Bool-cases (leb max_skip (length c.skipped))) [
            | inl full ↦ rw full (AreRight-drop seed c.skipped f.right_keys)
            | inr room ↦ rw room f.right_keys
          ])
          (ap (λ k. derive_message_key sodium k) f.at_key);
  }

  pub advance_loop-Follows :
      (seed : Bytes) (n target : ℕ) (c : PerPeerChain)
      → Follows seed c
      → Follows seed (advance_loop sodium n target c)
  unfolding advance_loop
  advance_loop-Follows seed zero target c f = f
  advance_loop-Follows seed (suc n) target c f = elim (Bool-cases (ltb c.next_index target)) [
    | inl more ↦
        rw (more, advance_loop)
          (advance_loop-Follows seed n target (skip_one sodium c) (skip_one-Follows seed c f))
    | inr done ↦ rw (done, advance_loop) f
  ]

  pub past-Follows :
      (seed : Bytes) (a : PerPeerChain)
      → a.next_index + 1 < 2 ^ 32
      → Follows seed a
      → Follows seed (past sodium a)
  past-Follows seed a h f = record {
    at_key =
        ap (λ k. ratchet_chain_key sodium k) f.at_key
        ∙ chain_at-next seed a.next_index ((a.next_index + 1) % 2 ^ 32) (omega arith);
    right_keys = f.right_keys;
  }
