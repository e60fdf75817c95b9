-- ===== src/Server/Relay/Membership/Laws.antt =====
-- The two maps of a membership are two views of one relation between connections and keys.
use fin_bit.Prelude.{
  ℕ, ◌≡◌, refl, List, [], ◌∷◌, Bytes, ◌==◌, ==_iff, if◌then◌else◌, nat_eq, list_eq, Bool, true,
  false, ◌&&◌, arith, Option-cases, inl, inr,
}
use fin_bit.Prelude.Dict.{lookup_or-some, lookup_or-none, lookup, lookup_or, lookup_or-erase}
use fin_bit.Prelude.Collections.{contains}
use fin_bit.Server.Relay.Membership.{
  Membership, no_members, drop_entry, join, leave, leave_each, leave_all, member_fds, keys_of,
}
use fin_bit.Server.Relay.Membership.Entries.{related, related-add_entry, related-drop_entry}

-- The calls on a membership.
pub data Call : Type 0 where
  joins leaves : ℕ → Bytes → Call
  closes : ℕ → Call

abbrev pub step : Membership → Call → Membership
step m (joins fd key) = join fd key m
step m (leaves fd key) = leave fd key m
step m (closes fd) = leave_all fd m

abbrev pub run : Membership → List Call → Membership
run m [] = m
run m (c ∷ cs) = run (step m c) cs

-- What the calls mean: a set of pairs of a connection and a key.
abbrev pub Pairs : Type 0
Pairs = ℕ → Bytes → Bool

abbrev pub step_pairs : Pairs → Call → Pairs
step_pairs r (joins fd key) fd' key' = if fd == fd' && key == key' then true else r fd' key'
step_pairs r (leaves fd key) fd' key' = if fd == fd' && key == key' then false else r fd' key'
step_pairs r (closes fd) fd' key' = if fd == fd' then false else r fd' key'

abbrev pub run_pairs : Pairs → List Call → Pairs
run_pairs r [] = r
run_pairs r (c ∷ cs) = run_pairs (step_pairs r c) cs

-- Both maps hold exactly these pairs.
pub record Holds (r : Pairs) (m : Membership) : Type 0 where
  pub as_members : (fd : ℕ) (key : Bytes) → contains fd (member_fds key m) ≡ r fd key
  pub as_keys : (fd : ℕ) (key : Bytes) → contains key (keys_of fd m) ≡ r fd key

module _ (r : Pairs) (m : Membership) (h : Holds r m) where
  join-Holds : (fd : ℕ) (key : Bytes) → Holds (step_pairs r (joins fd key)) (join fd key m)
  unfolding join member_fds keys_of
  join-Holds fd key = record {
    as_members = λ fd' key'.
        ground (arith, related-add_entry key key' fd fd' m.members, h.as_members fd' key');
    as_keys =
        λ fd' key'. ground (arith, related-add_entry fd fd' key key' m.joined, h.as_keys fd' key');
  }

  leave-Holds : (fd : ℕ) (key : Bytes) → Holds (step_pairs r (leaves fd key)) (leave fd key m)
  unfolding leave member_fds keys_of
  leave-Holds fd key = record {
    as_members = λ fd' key'.
        ground (arith, related-drop_entry key key' fd fd' m.members, h.as_members fd' key');
    as_keys =
        λ fd' key'. ground (arith, related-drop_entry fd fd' key key' m.joined, h.as_keys fd' key');
  }

related-leave_each :
    (fd fd' : ℕ) (key' : Bytes) (keys : List Bytes) (m : List (Bytes × List ℕ))
    → related key' fd' (leave_each fd keys m)
      ≡ (if fd == fd' && contains key' keys then false else related key' fd' m)
unfolding leave_each contains
related-leave_each fd fd' key' [] m = ground arith
related-leave_each fd fd' key' (key ∷ keys) m = ground (
  arith,
  related-leave_each fd fd' key' keys (drop_entry key fd m),
  related-drop_entry key key' fd fd' m,
)

leave_all-Holds :
    (r : Pairs) (m : Membership) (h : Holds r m) (fd : ℕ)
    → Holds (step_pairs r (closes fd)) (leave_all fd m)
unfolding leave_all member_fds keys_of contains
leave_all-Holds r m h fd = elim (Option-cases (lookup fd m.joined)) [
  | inl e ↦
      let nothing = lookup_or-none [] fd m.joined e in
      rw (e, leave_all)
        (record {
          as_members = λ fd' key'.
              ground (arith, ==_iff fd fd', h.as_members fd' key', h.as_keys fd key', nothing);
          as_keys = λ fd' key'.
              ground (arith, ==_iff fd fd', h.as_keys fd' key', h.as_keys fd key', nothing);
        })
  | inr (keys, e) ↦
      let held = lookup_or-some [] fd m.joined keys e in
      rw (e, leave_all)
        (record {
          as_members = λ fd' key'. ground (
            arith,
            ==_iff fd fd',
            related-leave_each fd fd' key' keys m.members,
            h.as_members fd' key',
            h.as_keys fd key',
            held,
          );
          as_keys =
              λ fd' key'. ground (arith, lookup_or-erase [] fd fd' m.joined, h.as_keys fd' key');
        })
]

pub step-Holds :
    (r : Pairs) (m : Membership) (c : Call) → Holds r m → Holds (step_pairs r c) (step m c)
step-Holds r m (joins fd key) h = join-Holds r m h fd key
step-Holds r m (leaves fd key) h = leave-Holds r m h fd key
step-Holds r m (closes fd) h = leave_all-Holds r m h fd

run-Holds-from :
    (r : Pairs) (m : Membership) (cs : List Call) → Holds r m → Holds (run_pairs r cs) (run m cs)
run-Holds-from r m [] h = h
run-Holds-from r m (c ∷ cs) h = run-Holds-from (step_pairs r c) (step m c) cs (step-Holds r m c h)

pub no_members-Holds : Holds (λ _ _. false) no_members
unfolding member_fds keys_of lookup_or lookup contains
no_members-Holds = record { as_members = λ fd key. refl; as_keys = λ fd key. refl }

-- After any history of joins, leaves and closed connections, the members of a key and the keys of
-- a connection, each as the relay answers them, are exactly the pairs that the history means.
pub run-Holds : (cs : List Call) → Holds (run_pairs (λ _ _. false) cs) (run no_members cs)
run-Holds cs = run-Holds-from _ _ cs no_members-Holds
