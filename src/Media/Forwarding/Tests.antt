-- ===== src/Media/Forwarding/Tests.antt =====
-- A call with three leaves, of which one goes.
use fin_bit.Prelude.{
  ◌≡◌, refl, List, [], ◌∷◌, false, ◌&&◌, ◌||◌, not, eqb, length, Bytes, ◌==◌, nat_eq, list_eq,
  pair_eq,
}
use fin_bit.Prelude.Collections.{contains}
use fin_bit.Media.Forwarding.{edges, plan_topology, ForwarderCandidate, elect_forwarder}
use fin_bit.Media.Forwarding.Election as Election
use fin_bit.Media.Forwarding.Topology as Topology
use fin_bit.Media.Forwarding.Laws as Laws
use fin_bit.Media.Forwarding.Laws.{Call, leaves_after, wired_after}

abbrev first : Bytes
first = 1 ∷ []

abbrev third : Bytes
third = 3 ∷ []

abbrev people : List Bytes
people = first ∷ (2 ∷ []) ∷ third ∷ []

abbrev call : List Call
call = Call.adds (1 ∷ []) ∷ Call.adds (2 ∷ []) ∷ Call.adds (3 ∷ []) ∷ Call.removes (2 ∷ []) ∷ []

wired_after-edges_example :
    (wired_after (first, third) false [] call
      ≡ contains (first, third) (edges (leaves_after [] call)))
    × (contains (first, third) (edges (leaves_after [] call))
        ≡ contains first (leaves_after [] call)
          && (contains third (leaves_after [] call) && not (first == third)))
wired_after-edges_example = Laws.wired_after-edges first third call

plan_topology-dial_example :
    (contains third (plan_topology people first first).dial
      ≡ eqb (length first) 0 || (first == first || first == third))
    × (contains first (plan_topology people third first).dial
        ≡ contains third (plan_topology people first first).dial)
unfolding contains
plan_topology-dial_example =
    Topology.plan_topology-dial people first third first refl refl (λ e. cc)

abbrev candidates : List ForwarderCandidate
candidates =
    record { pubkey = third; uplink_class = 2 }
    ∷ record { pubkey = first; uplink_class = 2 }
    ∷ record { pubkey = 2 ∷ []; uplink_class = 0 }
    ∷ []

first_is_elected : elect_forwarder candidates 3 ≡ first
unfolding elect_forwarder
first_is_elected = refl
