-- ===== src/Crypto/SenderKeys/Skipping.antt =====
-- Passing over indices: what a round of advance_chain_to keeps.
use fin_bit.Prelude.{
  ℕ, zero, suc, ◌+◌, ◌≤◌, ◌<◌, ◌≡◌, ◌≢◌, refl, sym, ap, ◌∙◌, List, [], ◌∷◌, none, some, true, Bytes,
  ◌==◌, ==_iff, nat_eq, list_eq, pair_eq, length, drop, ltb, leb, if◌then◌else◌, arith, Bool-cases,
  Option-cases, inl, inr, ◌⊎◌,
}
use fin_bit.Prelude.Dict.{lookup}
use fin_bit.Crypto.Sodium.{Sodium}
use fin_bit.Crypto.SkippedKeys.{Skipped, lookup-emplace-kept}
use fin_bit.Crypto.SenderKeys.{PerPeerChain, max_skip, derive_message_key, skip_one, advance_loop}

module _ {V : Type 0} where
  lookup-drop-none :
      (j : Bytes × ℕ) (m : List ((Bytes × ℕ) × V)) → lookup j m ≡ none → lookup j (drop 1 m) ≡ none
  unfolding lookup
  lookup-drop-none j [] h = refl
  lookup-drop-none j ((k, v) ∷ m) h = elim (Bool-cases (k == j)) [
    | inl same ↦ absurd (ground arith)
    | inr other ↦ ground arith
  ]

  lookup-drop-some :
      (j : Bytes × ℕ) (m : List ((Bytes × ℕ) × V)) (v : V)
      → lookup j (drop 1 m) ≡ some v
      → (w : V) × (lookup j m ≡ some w)
  unfolding lookup
  lookup-drop-some j [] v h = absurd (ground arith)
  lookup-drop-some j ((k, w) ∷ m) v h = elim (Bool-cases (k == j)) [
    | inl same ↦ (w, ground arith)
    | inr other ↦ (v, ground arith)
  ]

-- What is left of the cache when a round has made room.
abbrev pub kept : PerPeerChain → Skipped
kept c = if leb max_skip (length c.skipped) then drop 1 c.skipped else c.skipped

kept-none :
    (c : PerPeerChain) (j : Bytes × ℕ) → lookup j c.skipped ≡ none → lookup j (kept c) ≡ none
kept-none c j h = ground (arith, lookup-drop-none j c.skipped h)

kept-some :
    (c : PerPeerChain) (j : Bytes × ℕ) (v : Bytes)
    → lookup j (kept c) ≡ some v
    → (w : Bytes) × (lookup j c.skipped ≡ some w)
kept-some c j v h = elim (Bool-cases (leb max_skip (length c.skipped))) [
  | inl full ↦ lookup-drop-some j c.skipped v (ground arith)
  | inr room ↦ (v, ground arith)
]

-- The cache holds keys of earlier indices only.
pub record IsBehind (c : PerPeerChain) : Type 0 where
  pub behind :
      (id : Bytes) (i : ℕ) (mk : Bytes) → lookup (id, i) c.skipped ≡ some mk → i < c.next_index

-- The key of the index is gone.
abbrev pub IsSpent : PerPeerChain → ℕ → Type 0
IsSpent c i = (i < c.next_index) × (lookup (c.chain_id, i) c.skipped ≡ none)

module _ (sodium : Sodium) where
  skip_one-none :
      (c : PerPeerChain) (i : ℕ)
      → lookup (c.chain_id, i) c.skipped ≡ none
      → i ≢ c.next_index
      → lookup (c.chain_id, i) (skip_one sodium c).skipped ≡ none
  unfolding skip_one
  skip_one-none c i h differ =
      elim (Bool-cases (◌==◌ {A = Bytes × ℕ} (c.chain_id, c.next_index) (c.chain_id, i))) [
        | inl same ↦ absurd (
            differ (
              sym (
                ap (λ (p : Bytes × ℕ). p.1)
                  ((==_iff {A = Bytes × ℕ} (c.chain_id, c.next_index) (c.chain_id, i)).0 same))))
        | inr other ↦
            lookup-emplace-kept (c.chain_id, c.next_index) (c.chain_id, i)
              (derive_message_key sodium c.chain_key) (kept c)
            ∙ rw (kept-none c (c.chain_id, i) h) (rw other refl)
      ]

  skip_one-IsBehind : (c : PerPeerChain) → IsBehind c → IsBehind (skip_one sodium c)
  unfolding skip_one
  skip_one-IsBehind c b = record {
    behind = λ id i mk found.
        let value =
          sym (
            lookup-emplace-kept (c.chain_id, c.next_index) (id, i)
              (derive_message_key sodium c.chain_key) (kept c))
          ∙ found in
        elim (Option-cases (lookup (id, i) (kept c))) [
          | inr (w, old) ↦
              let was = kept-some c (id, i) w old in omega (arith, b.behind id i was.0 was.1)
          | inl new ↦ elim (Bool-cases (◌==◌ {A = Bytes × ℕ} (c.chain_id, c.next_index) (id, i))) [
            | inl same ↦
                let e =
                  ap (λ (p : Bytes × ℕ). p.1)
                    ((==_iff {A = Bytes × ℕ} (c.chain_id, c.next_index) (id, i)).0 same) in
                omega (arith, e)
            | inr other ↦ absurd (ground (arith, value))
          ]
        ];
  }

  -- What a number of rounds keeps.
  pub record Advances (c : PerPeerChain) (target : ℕ) (c' : PerPeerChain) : Type 0 where
    pub at_target : c'.next_index ≡ target
    pub same_chain : c'.chain_id ≡ c.chain_id
    pub still_behind : IsBehind c → IsBehind c'
    pub still_none :
        (i : ℕ)
        → lookup (c.chain_id, i) c.skipped ≡ none
        → (i < c.next_index) ⊎ (target ≤ i)
        → lookup (c.chain_id, i) c'.skipped ≡ none

  pub advance_loop-Advances :
      (n target : ℕ) (c : PerPeerChain)
      → c.next_index + n ≡ target
      → Advances c target (advance_loop sodium n target c)
  unfolding advance_loop skip_one
  advance_loop-Advances zero target c e = record {
    at_target = omega arith;
    same_chain = refl;
    still_behind = λ b. b;
    still_none = λ i h o. h;
  }
  advance_loop-Advances (suc n) target c e =
      let more : ltb c.next_index target ≡ true = ground arith in
      let ih = advance_loop-Advances n target (skip_one sodium c) (omega arith) in
      rw (more, advance_loop)
        (record {
          at_target = ih.at_target;
          same_chain = ih.same_chain;
          still_behind = λ b. ih.still_behind (skip_one-IsBehind c b);
          still_none = λ i h o.
              ih.still_none i (skip_one-none c i h (ground (arith, o))) (ground (arith, o));
        })
