-- ===== src/P2P/Gossip/Memory.antt =====
-- core/src/p2p/gossip.cpp: the memory of seen messages.
use fin_bit.Prelude.{
  ◌-◌, ◌≤◌, ◌≡◌, refl, sym, ap, ◌∙◌, List, [], ◌∷◌, ◌++◌, true, false, Bytes, ◌==◌, ==_iff, ==_symm,
  nat_eq, list_eq, length, length-append, drop, leb, if◌then◌else◌, arith, Bool-cases, inl, inr,
}
use fin_bit.Prelude.Collections.{contains, contains-snoc, contains-remove}
use fin_bit.P2P.Gossip.{Node, seen_message_cap, forget_front, seen_recently}

abbrev pub NoRepeat : List Bytes → Type 0
NoRepeat [] = Unit
NoRepeat (x ∷ xs) = (contains x xs ≡ false) × NoRepeat xs

NoRepeat-snoc :
    (xs : List Bytes) (m : Bytes) → contains m xs ≡ false → NoRepeat xs → NoRepeat (xs ++ m ∷ [])
unfolding contains
NoRepeat-snoc [] m new d = (refl, tt)
NoRepeat-snoc (x ∷ xs) m new d =
    (ground (arith, contains-snoc x m xs, ==_symm x m), NoRepeat-snoc xs m (ground arith) d.1)

NoRepeat-drop : (xs : List Bytes) → NoRepeat xs → NoRepeat (drop 1 xs)
NoRepeat-drop [] d = d
NoRepeat-drop (x ∷ xs) d = d.1

contains-drop :
    (m : Bytes) (xs : List Bytes) → contains m xs ≡ false → contains m (drop 1 xs) ≡ false
unfolding contains
contains-drop m [] h = h
contains-drop m (x ∷ xs) h = ground arith

-- The order and the set hold the same ids, each once, at most 4096.
pub record IsMemory (node : Node) : Type 0 where
  pub agree : (m : Bytes) → contains m node.seen_set ≡ contains m node.seen_order
  pub distinct : NoRepeat node.seen_order
  pub capped : length node.seen_order ≤ seen_message_cap

-- What is left of the two when there is room for one more id.
abbrev kept_order : Node → List Bytes
kept_order node =
    if leb seen_message_cap (length node.seen_order)
    then drop 1 node.seen_order
    else node.seen_order

abbrev kept_set : Node → List Bytes
kept_set node =
    if leb seen_message_cap (length node.seen_order)
    then forget_front node.seen_order node.seen_set
    else node.seen_set

contains-forget_front :
    (m : Bytes) (order set : List Bytes)
    → ((k : Bytes) → contains k set ≡ contains k order)
    → NoRepeat order
    → contains m (forget_front order set) ≡ contains m (drop 1 order)
unfolding forget_front contains
contains-forget_front m [] set same d = same m
contains-forget_front m (x ∷ order) set same d = elim (Bool-cases (x == m)) [
  | inl front ↦
      let e = (==_iff x m).0 front in
      ground (arith, contains-remove m x set, ap (λ (k : Bytes). contains k order) e, d.0)
  | inr other ↦ ground (arith, contains-remove m x set, same m)
]

contains-kept :
    (m : Bytes) (node : Node)
    → IsMemory node
    → contains m (kept_set node) ≡ contains m (kept_order node)
contains-kept m node v = elim (Bool-cases (leb seen_message_cap (length node.seen_order))) [
  | inl full ↦ rw (full) (contains-forget_front m node.seen_order node.seen_set v.agree v.distinct)
  | inr room ↦ rw (room) (v.agree m)
]

kept_order-false :
    (m : Bytes) (node : Node)
    → contains m node.seen_order ≡ false
    → contains m (kept_order node) ≡ false
kept_order-false m node h = ground (arith, contains-drop m node.seen_order h)

-- A new id.
abbrev pub remembered : Bytes → Node → Node
remembered mid node = record node {
  seen_order = kept_order node ++ mid ∷ [];
  seen_set = mid ∷ kept_set node;
}

pub seen_recently-old :
    (mid : Bytes) (node : Node)
    → contains mid node.seen_set ≡ true
    → seen_recently mid node ≡ (true, node)
unfolding seen_recently
seen_recently-old mid node h = rw h refl

pub seen_recently-new :
    (mid : Bytes) (node : Node)
    → contains mid node.seen_set ≡ false
    → seen_recently mid node ≡ (false, remembered mid node)
unfolding seen_recently
seen_recently-new mid node h = rw h refl

length-drop_one : (xs : List Bytes) → length (drop 1 xs) ≡ length xs - 1
length-drop_one [] = refl
length-drop_one (x ∷ xs) = omega arith

pub remembered-IsMemory :
    (mid : Bytes) (node : Node)
    → IsMemory node
    → contains mid node.seen_set ≡ false
    → IsMemory (remembered mid node)
unfolding contains
remembered-IsMemory mid node v new =
    let absent = kept_order-false mid node (sym (v.agree mid) ∙ new) in
    record {
      agree = λ m. ground (arith, contains-snoc m mid (kept_order node), contains-kept m node v);
      distinct =
          NoRepeat-snoc (kept_order node) mid absent
            (ground (arith, v.distinct, NoRepeat-drop node.seen_order v.distinct));
      capped = ground (
        arith,
        length-append (kept_order node) (mid ∷ []),
        length-drop_one node.seen_order,
        v.capped,
      );
    }
