-- ===== src/Media/Forwarding/Laws.antt =====
-- The edges that a forwarder adds and drops, against the set of all edges.
use fin_bit.Prelude.{
  ◌≡◌, refl, sym, ap, ◌∙◌, List, [], ◌∷◌, Bool, true, false, ◌||◌, ◌&&◌, not, Bytes, ◌==◌, ==_iff,
  nat_eq, list_eq, pair_eq, length, eqb, if◌then◌else◌, arith, Bool-cases, inl, inr,
}
use fin_bit.Prelude.Collections.{contains, remove, contains-append, contains-remove}
use fin_bit.Media.Forwarding.{
  ForwardEdge, insert_string, set_insert, edge_less, string_less, insert_edge, sort_edges,
  both_ways, add_leaf, remove_leaf, edges_from, edges_between, edges,
}

pub contains-insert_string :
    (x y : Bytes) (ys : List Bytes) → contains x (insert_string y ys) ≡ (y == x) || contains x ys
unfolding insert_string contains
contains-insert_string x y [] = ground arith
contains-insert_string x y (z ∷ ys) = elim (Bool-cases (string_less z y)) [
  | inl later ↦ rw (later, insert_string) (ground (arith, contains-insert_string x y ys))
  | inr here ↦ rw (here, insert_string) (ground arith)
]

contains-set_insert :
    (x y : Bytes) (ys : List Bytes) → contains x (set_insert y ys) ≡ (y == x) || contains x ys
unfolding set_insert
contains-set_insert x y ys = elim (Bool-cases (contains y ys)) [
  | inl there ↦ rw (there, set_insert) (ground (arith, ==_iff y x, there))
  | inr new ↦ rw (new, set_insert) (contains-insert_string x y ys)
]

contains-insert_edge :
    (e x : ForwardEdge) (xs : List ForwardEdge)
    → contains e (insert_edge x xs) ≡ contains e (x ∷ xs)
unfolding insert_edge contains
contains-insert_edge e x [] = refl
contains-insert_edge e x (y ∷ ys) = elim (Bool-cases (edge_less y x)) [
  | inl later ↦
      rw (later, insert_edge)
        (rw (contains-insert_edge e x ys)
          (swap (◌==◌ {A = ForwardEdge} y e) (◌==◌ {A = ForwardEdge} x e) (contains e ys)))
  | inr here ↦ rw (here, insert_edge) refl
]
  where
    swap :
        (p q r : Bool)
        → (if p then true else (if q then true else r))
          ≡ (if q then true else (if p then true else r))
    swap p q r = ground arith

contains-sort_edges :
    (e : ForwardEdge) (xs : List ForwardEdge) → contains e (sort_edges xs) ≡ contains e xs
unfolding sort_edges contains
contains-sort_edges e [] = refl
contains-sort_edges e (x ∷ xs) =
    contains-insert_edge e x (sort_edges xs)
    ∙ ap (λ r. if ◌==◌ {A = ForwardEdge} x e then true else r) (contains-sort_edges e xs)

contains-both_ways :
    (a b leaf : Bytes) (others : List Bytes)
    → contains (a, b) (both_ways leaf others)
      ≡ ((leaf == a) && contains b others) || ((leaf == b) && contains a others)
unfolding both_ways contains
contains-both_ways a b leaf [] = ground arith
contains-both_ways a b leaf (o ∷ others) = ground (arith, contains-both_ways a b leaf others)

contains-edges_from :
    (a b x : Bytes) (bs : List Bytes)
    → contains (a, b) (edges_from x bs) ≡ (x == a) && (contains b bs && not (a == b))
unfolding edges_from contains
contains-edges_from a b x [] = ground arith
contains-edges_from a b x (y ∷ bs) =
    ground (arith, contains-edges_from a b x bs, ==_iff x a, ==_iff y b, ==_iff x y, ==_iff a b)

contains-edges_between :
    (a b : Bytes) (as' bs : List Bytes)
    → contains (a, b) (edges_between as' bs) ≡ contains a as' && (contains b bs && not (a == b))
unfolding edges_between contains
contains-edges_between a b [] bs = refl
contains-edges_between a b (x ∷ as') bs =
    contains-append (a, b) (edges_from x bs) (edges_between as' bs)
    ∙ ground (arith, contains-edges_from a b x bs, contains-edges_between a b as' bs)

-- An edge leads from a leaf to another leaf.
pub contains-edges :
    (a b : Bytes) (leaves : List Bytes)
    → contains (a, b) (edges leaves) ≡ contains a leaves && (contains b leaves && not (a == b))
unfolding edges
contains-edges a b leaves =
    contains-sort_edges (a, b) (edges_between leaves leaves)
    ∙ contains-edges_between a b leaves leaves

add_leaf-edges :
    (a b leaf : Bytes) (leaves : List Bytes)
    → contains (a, b) (edges (add_leaf leaf leaves).1)
      ≡ contains (a, b) (add_leaf leaf leaves).0 || contains (a, b) (edges leaves)
unfolding add_leaf contains
add_leaf-edges a b leaf leaves = elim (Bool-cases (eqb (length leaf) 0 || contains leaf leaves)) [
  | inl there ↦ rw (there, add_leaf) refl
  | inr new ↦
      rw (new, add_leaf)
        (rw (contains-sort_edges (a, b) (both_ways leaf leaves)) (
          ground (
            arith,
            contains-edges a b (set_insert leaf leaves),
            contains-edges a b leaves,
            contains-set_insert a leaf leaves,
            contains-set_insert b leaf leaves,
            contains-both_ways a b leaf leaves,
            ==_iff leaf a,
            ==_iff leaf b,
            ==_iff a b,
          )))
]

remove_leaf-edges :
    (a b leaf : Bytes) (leaves : List Bytes)
    → contains (a, b) (edges (remove_leaf leaf leaves).1)
      ≡ contains (a, b) (edges leaves) && not (contains (a, b) (remove_leaf leaf leaves).0)
unfolding remove_leaf contains
remove_leaf-edges a b leaf leaves = elim (Bool-cases (contains leaf leaves)) [
  | inr absent ↦ rw (absent, remove_leaf) (ground arith)
  | inl there ↦
      rw (there, remove_leaf)
        (rw (contains-sort_edges (a, b) (both_ways leaf (remove leaf leaves))) (
          ground (
            arith,
            contains-edges a b (remove leaf leaves),
            contains-edges a b leaves,
            contains-remove a leaf leaves,
            contains-remove b leaf leaves,
            contains-both_ways a b leaf (remove leaf leaves),
            ==_iff leaf a,
            ==_iff leaf b,
            ==_iff a b,
          )))
]

pub data Call : Type 0 where
  adds removes : Bytes → Call

abbrev pub leaves_after : List Bytes → List Call → List Bytes
leaves_after leaves [] = leaves
leaves_after leaves (adds leaf ∷ calls) = leaves_after (add_leaf leaf leaves).1 calls
leaves_after leaves (removes leaf ∷ calls) = leaves_after (remove_leaf leaf leaves).1 calls

-- Whether an edge is wired by a peer that wires the added edges and cuts the removed ones.
abbrev pub wired_after : ForwardEdge → Bool → List Bytes → List Call → Bool
wired_after e wired leaves [] = wired
wired_after e wired leaves (adds leaf ∷ calls) =
    wired_after e (contains e (add_leaf leaf leaves).0 || wired) (add_leaf leaf leaves).1 calls
wired_after e wired leaves (removes leaf ∷ calls) =
    wired_after e (wired && not (contains e (remove_leaf leaf leaves).0))
      (remove_leaf leaf leaves).1 calls

wired_after-from :
    (a b : Bytes) (wired : Bool) (leaves : List Bytes) (calls : List Call)
    → wired ≡ contains (a, b) (edges leaves)
    → wired_after (a, b) wired leaves calls ≡ contains (a, b) (edges (leaves_after leaves calls))
wired_after-from a b wired leaves [] h = h
wired_after-from a b wired leaves (adds leaf ∷ calls) h =
    wired_after-from a b (contains (a, b) (add_leaf leaf leaves).0 || wired)
      (add_leaf leaf leaves).1 calls
      (ap (λ w. contains (a, b) (add_leaf leaf leaves).0 || w) h
        ∙ sym (add_leaf-edges a b leaf leaves))
wired_after-from a b wired leaves (removes leaf ∷ calls) h =
    wired_after-from a b (wired && not (contains (a, b) (remove_leaf leaf leaves).0))
      (remove_leaf leaf leaves).1 calls
      (ap (λ w. w && not (contains (a, b) (remove_leaf leaf leaves).0)) h
        ∙ sym (remove_leaf-edges a b leaf leaves))

-- A peer that starts with no leaf and, at each call of add_leaf and remove_leaf, wires and cuts what
-- the call returns, has wired exactly the edges from each leaf to each other leaf.
pub wired_after-edges :
    (a b : Bytes) (calls : List Call)
    → (wired_after (a, b) false [] calls ≡ contains (a, b) (edges (leaves_after [] calls)))
      × (contains (a, b) (edges (leaves_after [] calls))
          ≡ contains a (leaves_after [] calls)
            && (contains b (leaves_after [] calls) && not (a == b)))
unfolding edges edges_between sort_edges contains
wired_after-edges a b calls =
    (wired_after-from a b false [] calls refl, contains-edges a b (leaves_after [] calls))
