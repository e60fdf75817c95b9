-- ===== src/Media/Forwarding.antt =====
-- core/src/media/forwarder.cpp: who connects to whom in a call, and the routing set of the peer
-- that forwards it. A `std::set` is a list in the order of its elements.
use fin_bit.Prelude.{
  ℕ, Option, none, some, ◌≡◌, List, [], ◌∷◌, ◌++◌, Bool, true, false, ◌||◌, ◌&&◌, not, Bytes, Eq,
  ◌==◌, nat_eq, list_eq, pair_eq, length, ltb, eqb, if◌then◌else◌,
}
use fin_bit.Prelude.Collections.{contains, remove}
pub mod Laws
pub mod Topology
pub mod Election
mod Tests

-- `operator<` of `std::string`.
unfoldable pub string_less : Bytes → Bytes → Bool
string_less [] [] = false
string_less [] (y ∷ ys) = true
string_less (x ∷ xs) [] = false
string_less (x ∷ xs) (y ∷ ys) =
    if ltb x y then true else (if ltb y x then false else string_less xs ys)

-- `std::sort` of strings, and `std::set::insert`.
unfoldable pub insert_string : Bytes → List Bytes → List Bytes
unfolding string_less
insert_string x [] = x ∷ []
insert_string x (y ∷ ys) =
    let rest = insert_string x ys in if string_less y x then y ∷ rest else x ∷ y ∷ ys

unfoldable pub sort_strings : List Bytes → List Bytes
unfolding insert_string
sort_strings [] = []
sort_strings (x ∷ xs) = insert_string x (sort_strings xs)

unfoldable pub set_insert : Bytes → List Bytes → List Bytes
unfolding insert_string
set_insert x xs = if contains x xs then xs else insert_string x xs

-- `uplink_class` is an `int`; the election passes over what is not positive, which is 0 here.
pub record ForwarderCandidate : Type 0 where
  pub pubkey : Bytes
  pub uplink_class : ℕ

-- Whether the loop of the election prefers `c` to the best so far.
unfoldable pub better : ForwarderCandidate → ForwarderCandidate → Bool
unfolding string_less
better c best =
    ltb best.uplink_class c.uplink_class
    || (eqb c.uplink_class best.uplink_class && string_less c.pubkey best.pubkey)

-- The best so far after one more candidate.
unfoldable pub pick : Option ForwarderCandidate → ForwarderCandidate → Option ForwarderCandidate
unfolding better
pick none c = if eqb c.uplink_class 0 then none else some c
pick (some b) c = if eqb c.uplink_class 0 then some b else (if better c b then some c else some b)

unfoldable pub elect_best :
    Option ForwarderCandidate → List ForwarderCandidate → Option ForwarderCandidate
unfolding pick
elect_best best [] = best
elect_best best (c ∷ cs) = elect_best (pick best c) cs

unfoldable pub elect_forwarder : List ForwarderCandidate → ℕ → Bytes
unfolding elect_best
elect_forwarder candidates mesh_threshold =
    if ltb (length candidates) mesh_threshold
    then []
    else elim (elect_best none candidates) [ none ↦ [] | some b ↦ b.pubkey ]

pub record ForwarderPlan : Type 0 where
  pub forwarder : Bytes
  pub mesh : Bool
  pub i_am_forwarder : Bool
  pub dial : List Bytes

unfoldable pub all_but : Bytes → List Bytes → List Bytes
all_but me [] = []
all_but me (p ∷ ps) = let rest = all_but me ps in if p == me then rest else p ∷ rest

unfoldable pub plan_topology : List Bytes → Bytes → Bytes → ForwarderPlan
unfolding all_but sort_strings
plan_topology participants my_pubkey forwarder =
    if eqb (length forwarder) 0
    then record {
      forwarder = forwarder;
      mesh = true;
      i_am_forwarder = false;
      dial = sort_strings (all_but my_pubkey participants);
    }
    else (if forwarder == my_pubkey
        then record {
          forwarder = forwarder;
          mesh = false;
          i_am_forwarder = true;
          dial = sort_strings (all_but my_pubkey participants);
        }
        else record {
          forwarder = forwarder;
          mesh = false;
          i_am_forwarder = false;
          dial = sort_strings (forwarder ∷ []);
        })

-- From the sender of a stream to a receiver.
abbrev pub ForwardEdge : Type 0
ForwardEdge = Bytes × Bytes

unfoldable pub edge_less : ForwardEdge → ForwardEdge → Bool
unfolding string_less
edge_less (a, b) (c, d) = if a == c then string_less b d else string_less a c

unfoldable pub insert_edge : ForwardEdge → List ForwardEdge → List ForwardEdge
unfolding edge_less
insert_edge x [] = x ∷ []
insert_edge x (y ∷ ys) =
    let rest = insert_edge x ys in if edge_less y x then y ∷ rest else x ∷ y ∷ ys

unfoldable pub sort_edges : List ForwardEdge → List ForwardEdge
unfolding insert_edge
sort_edges [] = []
sort_edges (x ∷ xs) = insert_edge x (sort_edges xs)

-- The loop of add_leaf and of remove_leaf over the other leaves.
unfoldable pub both_ways : Bytes → List Bytes → List ForwardEdge
both_ways leaf [] = []
both_ways leaf (other ∷ others) = (leaf, other) ∷ (other, leaf) ∷ both_ways leaf others

unfoldable pub add_leaf : Bytes → List Bytes → List ForwardEdge × List Bytes
unfolding both_ways sort_edges set_insert
add_leaf leaf leaves =
    if eqb (length leaf) 0 || contains leaf leaves
    then ([], leaves)
    else (sort_edges (both_ways leaf leaves), set_insert leaf leaves)

unfoldable pub remove_leaf : Bytes → List Bytes → List ForwardEdge × List Bytes
unfolding both_ways sort_edges
remove_leaf leaf leaves =
    let rest = remove leaf leaves in
    if not (contains leaf leaves) then ([], leaves) else (sort_edges (both_ways leaf rest), rest)

unfoldable pub edges_from : Bytes → List Bytes → List ForwardEdge
edges_from a [] = []
edges_from a (b ∷ bs) = let rest = edges_from a bs in if a == b then rest else (a, b) ∷ rest

unfoldable pub edges_between : List Bytes → List Bytes → List ForwardEdge
unfolding edges_from
edges_between [] bs = []
edges_between (a ∷ as') bs = edges_from a bs ++ edges_between as' bs

unfoldable pub edges : List Bytes → List ForwardEdge
unfolding edges_between sort_edges
edges leaves = sort_edges (edges_between leaves leaves)

unfoldable pub subscribers_of : Bytes → List Bytes → List Bytes
unfolding all_but
subscribers_of src leaves = if not (contains src leaves) then [] else all_but src leaves

unfoldable pub leaf_count : List Bytes → ℕ
leaf_count leaves = length leaves

unfoldable pub has_leaf : Bytes → List Bytes → Bool
has_leaf leaf leaves = contains leaf leaves
