-- ===== src/Server/Relay/Membership/Entries.antt =====
-- A map of lists read as a relation between its keys and their entries.
use fin_bit.Prelude.{
  ◌≡◌, List, [], ◌∷◌, ◌++◌, Eq, ◌==◌, if◌then◌else◌, nat_eq, list_eq, Bool, true, false, arith,
  Option-cases, inl, inr,
}
use fin_bit.Prelude.Dict.{
  lookup_or-some, lookup_or-none, lookup, lookup_or, insert, erase, lookup_or-insert,
  lookup_or-erase,
}
use fin_bit.Prelude.Collections.{contains, remove, contains-snoc, contains-remove}
use fin_bit.Server.Relay.Membership.{add_entry, drop_entry}

module _ {ℓ κ} {K : Type ℓ} {X : Type κ} ⦃e : Eq K⦄ ⦃f : Eq X⦄ where
  abbrev pub related : K → X → List (K × List X) → Bool
  related k x m = contains x (lookup_or [] k m)

  pub related-add_entry :
      (k j : K) (x y : X) (m : List (K × List X))
      → related j y (add_entry k x m)
        ≡ (if k == j then (if x == y then true else related j y m) else related j y m)
  unfolding add_entry
  related-add_entry k j x y m =
      let v = lookup_or [] k m in
      ground (
        arith,
        lookup_or-insert [] k j v m,
        lookup_or-insert [] k j (v ++ x ∷ []) m,
        contains-snoc y x v,
        e.same_iff k j,
        f.same_iff x y,
      )

  -- Whether an emptied list is stored or dropped makes no difference to a reader.
  store_rest : List X → K → List (K × List X) → List (K × List X)
  store_rest w k m = elim w [ [] ↦ erase k m | y ∷ ys ↦ insert k (y ∷ ys) m ]

  lookup_or-store_rest :
      (w : List X) (k j : K) (m : List (K × List X))
      → lookup_or [] j (store_rest w k m) ≡ (if k == j then w else lookup_or [] j m)
  unfolding store_rest
  lookup_or-store_rest [] k j m = lookup_or-erase [] k j m
  lookup_or-store_rest (y ∷ ys) k j m = lookup_or-insert [] k j (y ∷ ys) m

  pub related-drop_entry :
      (k j : K) (x y : X) (m : List (K × List X))
      → related j y (drop_entry k x m)
        ≡ (if k == j then (if x == y then false else related j y m) else related j y m)
  unfolding drop_entry store_rest
  related-drop_entry k j x y m = elim (Option-cases (lookup k m)) [
    | inl h ↦
        rw (h, drop_entry)
          (unfold contains in ground (arith, lookup_or-none [] k m h, e.same_iff k j))
    | inr (v, h) ↦
        rw (h, drop_entry)
          (ground (
            arith,
            lookup_or-store_rest (remove x v) k j m,
            lookup_or-some [] k m v h,
            contains-remove y x v,
            e.same_iff k j,
          ))
  ]
