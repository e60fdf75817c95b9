-- ===== src/P2P/Gossip/Once.antt =====
-- core/src/p2p/gossip.cpp: a message is delivered once.
use fin_bit.Prelude.{
  ℕ, ◌+◌, ◌≤◌, ◌<◌, ◌≡◌, refl, sym, ap, ◌∙◌, List, [], ◌∷◌, ◌++◌, append_assoc, true, false, Bytes,
  ◌==◌, ==_refl, nat_eq, list_eq, length, length-append, drop, leb, if◌then◌else◌, arith,
  Bool-cases, inl, inr,
}
use fin_bit.Prelude.Collections.{contains, contains-append}
use fin_bit.P2P.Gossip.{Node, Publish, Environment, seen_message_cap, new_node, handle_publish}
use fin_bit.P2P.Gossip.Memory.{
  IsMemory, remembered, seen_recently-old, seen_recently-new, remembered-IsMemory,
}
use fin_bit.P2P.Gossip.Run.{
  Event, weight, Keeps, forward-Keeps, Remembers, keeps, adds, step, step-Remembers,
  handle_publish-Remembers,
}

-- The id stands in the order with at most so many behind it.
record Recent (k : ℕ) (mid : Bytes) (order : List Bytes) : Type 0 where
  older : List Bytes
  younger : List Bytes
  split : order ≡ older ++ (mid ∷ younger)
  few : length younger ≤ k

Recent-contains :
    (k : ℕ) (mid : Bytes) (order : List Bytes) → Recent k mid order → contains mid order ≡ true
unfolding contains
Recent-contains k mid order r =
    ap (λ (l : List Bytes). contains mid l) r.split
    ∙ contains-append mid r.older (mid ∷ r.younger)
    ∙ ground (arith, ==_refl mid)

Recent-full :
    (k : ℕ) (mid : Bytes) (older younger order : List Bytes)
    → order ≡ older ++ (mid ∷ younger)
    → length younger ≤ k
    → k + 1 < length order
    → (older' : List Bytes) × (drop 1 order ≡ older' ++ (mid ∷ younger))
Recent-full k mid [] younger order e few long =
    absurd (omega (arith, ap (λ (l : List Bytes). length l) e))
Recent-full k mid (x ∷ older) younger order e few long = (older, ap (drop 1) e)

snoc_split :
    (mid other : Bytes) (older younger order : List Bytes)
    → order ≡ older ++ (mid ∷ younger)
    → order ++ other ∷ [] ≡ older ++ (mid ∷ (younger ++ other ∷ []))
snoc_split mid other older younger order e = rw e (append_assoc older (mid ∷ younger) (other ∷ []))

Recent-remembered :
    (k : ℕ) (mid other : Bytes) (n : Node)
    → Recent k mid n.seen_order
    → k + 1 < seen_message_cap
    → Recent (k + 1) mid (remembered other n).seen_order
Recent-remembered k mid other n r small =
    let longer = length-append r.younger (other ∷ []) in
    elim (Bool-cases (leb seen_message_cap (length n.seen_order))) [
      | inr room ↦ record {
        older = r.older;
        younger = r.younger ++ other ∷ [];
        split = rw room (snoc_split mid other r.older r.younger n.seen_order r.split);
        few = omega (arith, longer, r.few);
      }
      | inl full ↦
          let (older, e) =
            Recent-full k mid r.older r.younger n.seen_order r.split r.few (ground arith) in
          record {
            older = older;
            younger = r.younger ++ other ∷ [];
            split = rw full (snoc_split mid other older r.younger (drop 1 n.seen_order) e);
            few = omega (arith, longer, r.few);
          }
    ]

Keeps-IsMemory : {n n' : Node} → Keeps n n' → IsMemory n → IsMemory n'
Keeps-IsMemory k v = record {
  agree = λ m.
      ap (λ (l : List Bytes). contains m l) k.same_set
      ∙ v.agree m
      ∙ ap (λ (l : List Bytes). contains m l) (sym k.same_order);
  distinct = rw k.same_order v.distinct;
  capped = rw k.same_order v.capped;
}

Recent-weaken :
    (k j : ℕ) (mid : Bytes) (order : List Bytes) → k ≤ j → Recent k mid order → Recent j mid order
Recent-weaken k j mid order le r = record {
  older = r.older;
  younger = r.younger;
  split = r.split;
  few = omega (arith, r.few);
}

module _ (env : Environment) where
  Remembers-IsMemory : {n n' : Node} {w : ℕ} → Remembers env n n' w → IsMemory n → IsMemory n'
  Remembers-IsMemory (keeps k) v = Keeps-IsMemory k v
  Remembers-IsMemory {n = n} (adds mid new k one) v =
      Keeps-IsMemory k (remembered-IsMemory mid n v new)

  Remembers-Recent :
      {n n' : Node} (w k : ℕ) (mid : Bytes)
      → Remembers env n n' w
      → k + w < seen_message_cap
      → Recent k mid n.seen_order
      → Recent (k + w) mid n'.seen_order
  Remembers-Recent {n' = n'} w k mid (keeps s) small r =
      Recent-weaken k (k + w) mid n'.seen_order (omega arith) (rw s.same_order r)
  Remembers-Recent {n = n} {n' = n'} w k mid (adds other new s one) small r =
      Recent-weaken (k + 1) (k + w) mid n'.seen_order (omega arith)
        (rw s.same_order (Recent-remembered k mid other n r (omega arith)))

  -- The node after a history.
  abbrev pub run : List Event → Node → Node
  run [] n = n
  run (e ∷ es) n = run es (step env e n).0

  abbrev pub total_weight : List Event → ℕ
  total_weight [] = 0
  total_weight (e ∷ es) = weight e + total_weight es

  pub run-IsMemory : (es : List Event) (n : Node) → IsMemory n → IsMemory (run es n)
  run-IsMemory [] n v = v
  run-IsMemory (e ∷ es) n v =
      run-IsMemory es (step env e n).0 (Remembers-IsMemory (step-Remembers env e n) v)

  run-Recent :
      (es : List Event) (k : ℕ) (mid : Bytes) (n : Node)
      → k + total_weight es < seen_message_cap
      → Recent k mid n.seen_order
      → Recent (k + total_weight es) mid (run es n).seen_order
  run-Recent [] k mid n small r = Recent-weaken k (k + 0) mid n.seen_order (omega arith) r
  run-Recent (e ∷ es) k mid n small r =
      Recent-weaken (k + weight e + total_weight es) (k + (weight e + total_weight es)) mid
        (run es (step env e n).0).seen_order (omega arith)
        (run-Recent es (k + weight e) mid (step env e n).0 (omega arith)
          (Remembers-Recent (weight e) k mid (step-Remembers env e n) (omega arith) r))

  handle_publish-Recent :
      (fd : ℕ) (p : Publish) (n : Node)
      → (length p.message_id == 0) ≡ false
      → contains p.message_id n.seen_set ≡ false
      → Recent 0 p.message_id (handle_publish env fd p n).0.seen_order
  unfolding handle_publish
  handle_publish-Recent fd p n named new =
      rw (named, handle_publish)
        (rw (seen_recently-new p.message_id n new) (
          rw (forward-Keeps env fd p (remembered p.message_id n)).same_order (record {
            older =
                if leb seen_message_cap (length n.seen_order)
                then drop 1 n.seen_order
                else n.seen_order;
            younger = [];
            split = refl;
            few = omega arith;
          })))

  new_node-IsMemory : (self_id self_addr : Bytes) → IsMemory (new_node self_id self_addr)
  unfolding new_node
  new_node-IsMemory self_id self_addr = record {
    agree = λ m. refl;
    distinct = tt;
    capped = omega arith;
  }

  -- In every history of a node, a message that is handled for the first time is delivered and relayed
  -- at most then: when a message with its id comes again, from whatever connection, nothing is
  -- delivered and nothing changes, if fewer than 4096 messages were handled or published in between.
  pub handle_publish_once :
      (self_id self_addr : Bytes) (past between : List Event) (fd fd' : ℕ) (p p' : Publish)
      → (length p.message_id == 0) ≡ false
      → contains p.message_id (run past (new_node self_id self_addr)).seen_set ≡ false
      → total_weight between < seen_message_cap
      → p'.message_id ≡ p.message_id
      → handle_publish env fd' p'
          (run between (handle_publish env fd p (run past (new_node self_id self_addr))).0)
        ≡ (run between (handle_publish env fd p (run past (new_node self_id self_addr))).0, [])
  unfolding handle_publish
  handle_publish_once self_id self_addr past between fd fd' p p' named new few same =
      let n = run past (new_node self_id self_addr) in
      let first = (handle_publish env fd p n).0 in
      let v =
        run-IsMemory past (new_node self_id self_addr) (new_node-IsMemory self_id self_addr) in
      let v' = Remembers-IsMemory (handle_publish-Remembers env fd p n) v in
      let recent =
        run-Recent between 0 p.message_id first (omega arith)
          (handle_publish-Recent fd p n named new) in
      let seen : contains p'.message_id (run between first).seen_set ≡ true = rw same (
        (run-IsMemory between first v').agree p.message_id
        ∙ Recent-contains (0 + total_weight between) p.message_id (run between first).seen_order
            recent) in
      let named' : (length p'.message_id == 0) ≡ false = rw same named in
      rw (named', handle_publish)
        (rw (seen_recently-old p'.message_id (run between first) seen) refl)
