-- ===== src/Server/Relay/Tests.antt =====
-- The relay's routing state at concrete histories.
use fin_bit.Prelude.{◌≡◌, refl, List, [], ◌∷◌, Bytes, nat_eq, list_eq, some, false}
use fin_bit.Prelude.Dict.{lookup, insert, erase}
use fin_bit.Server.Relay.Bindings.{no_bindings, bind, unbind, find_fd}
use fin_bit.Server.Relay.Bindings.Laws as BindingsLaws
use fin_bit.Server.Relay.Membership.{no_members}
use fin_bit.Server.Relay.Membership.Laws as MembershipLaws
use fin_bit.Server.Relay.Offline.Laws.{pending}
use fin_bit.Server.Relay.Offline.History as OfflineHistory
use fin_bit.Server.Relay.State.{Relay, new_relay, close_conn}
use fin_bit.Server.Relay.State.Laws as StateLaws
use fin_bit.Server.Relay.State.Laws.{step}

abbrev alice : Bytes
alice = 1 ∷ []

abbrev bob : Bytes
bob = 2 ∷ []

abbrev reconnects : List BindingsLaws.Call
reconnects =
    BindingsLaws.Call.binds 5 alice
    ∷ BindingsLaws.Call.binds 6 alice
    ∷ BindingsLaws.Call.unbinds 5
    ∷ []

still_online : find_fd alice (BindingsLaws.run no_bindings reconnects) ≡ some 6
unfolding bind unbind find_fd lookup insert erase
still_online = refl

run-IsServed_example : BindingsLaws.IsServed (BindingsLaws.run no_bindings reconnects)
run-IsServed_example = BindingsLaws.run-IsServed reconnects

abbrev visits : List MembershipLaws.Call
visits =
    MembershipLaws.Call.joins 5 alice
    ∷ MembershipLaws.Call.joins 5 bob
    ∷ MembershipLaws.Call.joins 6 bob
    ∷ MembershipLaws.Call.closes 5
    ∷ []

run-Holds_example :
    MembershipLaws.Holds
      (MembershipLaws.run_pairs (λ _ _. false) visits)
      (MembershipLaws.run no_members visits)
run-Holds_example = MembershipLaws.run-Holds visits

abbrev away : List OfflineHistory.Call
away =
    OfflineHistory.Call.enqueues alice (7 ∷ []) 100
    ∷ OfflineHistory.Call.enqueues bob (8 ∷ []) 101
    ∷ OfflineHistory.Call.enqueues alice (9 ∷ []) 102
    ∷ []

pending-run_example :
    (pending alice (OfflineHistory.run OfflineHistory.in_memory away) ≡ (7 ∷ []) ∷ (9 ∷ []) ∷ [])
    × (pending alice (OfflineHistory.run OfflineHistory.in_table away) ≡ (7 ∷ []) ∷ (9 ∷ []) ∷ [])
pending-run_example = OfflineHistory.pending-run away alice

abbrev connected : Relay
connected =
    step (step new_relay (StateLaws.Call.authenticates 5 alice)) (StateLaws.Call.enters 5 bob)

close_conn-IsGone_example : StateLaws.IsGone 5 (close_conn 5 connected)
unfolding lookup
close_conn-IsGone_example = StateLaws.close_conn-IsGone 5 (
    StateLaws.next
      (StateLaws.next StateLaws.start (StateLaws.Call.authenticates 5 alice) (λ k e. cc))
      (StateLaws.Call.enters 5 bob) tt)
