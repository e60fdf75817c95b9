-- ===== src/Media/Forwarding/Topology.antt =====
-- Whom the participants of a call dial.
use fin_bit.Prelude.{
  ◌≡◌, ◌≢◌, refl, sym, ◌∙◌, List, [], ◌∷◌, Bool, true, ◌||◌, ◌&&◌, not, Bytes, ◌==◌, ==_iff, nat_eq,
  list_eq, length, eqb, arith, Bool-cases, inl, inr,
}
use fin_bit.Prelude.Collections.{contains}
use fin_bit.Media.Forwarding.{sort_strings, all_but, plan_topology}
use fin_bit.Media.Forwarding.Laws.{contains-insert_string}

contains-sort_strings : (x : Bytes) (xs : List Bytes) → contains x (sort_strings xs) ≡ contains x xs
unfolding sort_strings contains
contains-sort_strings x [] = refl
contains-sort_strings x (y ∷ ys) =
    contains-insert_string x y (sort_strings ys) ∙ ground (arith, contains-sort_strings x ys)

contains-all_but :
    (x me : Bytes) (ps : List Bytes) → contains x (all_but me ps) ≡ contains x ps && not (x == me)
unfolding all_but contains
contains-all_but x me [] = refl
contains-all_but x me (p ∷ ps) =
    ground (arith, contains-all_but x me ps, ==_iff p me, ==_iff p x, ==_iff x me)

contains-one : (x y : Bytes) → contains x (y ∷ []) ≡ (y == x)
unfolding contains
contains-one x y = ground arith

dial_others :
    (ps : List Bytes) (me other : Bytes)
    → contains other ps ≡ true
    → me ≢ other
    → contains other (sort_strings (all_but me ps)) ≡ true
dial_others ps me other there differ =
    contains-sort_strings other (all_but me ps)
    ∙ contains-all_but other me ps
    ∙ ground (arith, there, ==_iff other me, λ (e : other ≡ me). differ (sym e))

-- A participant dials another one exactly if there is no forwarder, or one of the two is the
-- forwarder. So of two participants who name the same forwarder each dials the other, or neither.
pub plan_topology-dial :
    (ps : List Bytes) (me other forwarder : Bytes)
    → contains me ps ≡ true
    → contains other ps ≡ true
    → me ≢ other
    → (contains other (plan_topology ps me forwarder).dial
        ≡ eqb (length forwarder) 0 || (forwarder == me || forwarder == other))
      × (contains me (plan_topology ps other forwarder).dial
          ≡ contains other (plan_topology ps me forwarder).dial)
unfolding plan_topology
plan_topology-dial ps me other forwarder here there differ =
    let mine = dials ps me other forwarder there differ in
    let theirs = dials ps other me forwarder here (λ e. differ (sym e)) in
    (
      mine,
      theirs ∙ or_swap (eqb (length forwarder) 0) (forwarder == me) (forwarder == other) ∙ sym mine,
    )
  where
    or_swap : (p q r : Bool) → (p || (r || q)) ≡ (p || (q || r))
    or_swap p q r = ground arith

    dials :
        (ps : List Bytes) (me other forwarder : Bytes)
        → contains other ps ≡ true
        → me ≢ other
        → contains other (plan_topology ps me forwarder).dial
          ≡ eqb (length forwarder) 0 || (forwarder == me || forwarder == other)
    dials ps me other forwarder there differ = elim (Bool-cases (eqb (length forwarder) 0)) [
      | inl none_chosen ↦ rw (none_chosen, plan_topology) (dial_others ps me other there differ)
      | inr chosen ↦ elim (Bool-cases (forwarder == me)) [
        | inl i_am ↦ rw (chosen, i_am, plan_topology) (dial_others ps me other there differ)
        | inr leaf ↦
            rw (chosen, leaf, plan_topology)
              (contains-sort_strings other (forwarder ∷ []) ∙ contains-one other forwarder)
      ]
    ]
