-- ===== src/Server/Relay/Membership.antt =====
-- server/src/relay.cpp: channel subscriptions and room membership. The source writes the same
-- code for both over two pairs of maps, `chan_subs_` with `fd_to_chans_` and `room_members_` with
-- `fd_to_rooms_`; a pair is a `Membership` here.
use fin_bit.Prelude.{
  ℕ, ◌≡◌, List, [], ◌∷◌, ◌++◌, Option, none, some, Bytes, Eq, ◌==◌, if◌then◌else◌, nat_eq, list_eq,
}
use fin_bit.Prelude.Dict.{lookup, lookup_or, insert, erase}
use fin_bit.Prelude.Collections.{contains, remove}
pub mod Entries
pub mod Laws

pub record Membership : Type 0 where
  pub members : List (Bytes × List ℕ)
  pub joined : List (ℕ × List Bytes)

abbrev pub no_members : Membership
no_members = record { members = []; joined = [] }

-- `auto& v = m[k]; if (std::find(…) == v.end()) v.push_back(x);`
unfoldable pub add_entry {ℓ κ} :
    {K : Type ℓ} {X : Type κ} ⦃e : Eq K⦄ ⦃f : Eq X⦄ → K → X → List (K × List X) → List (K × List X)
add_entry k x m =
    let v = lookup_or [] k m in if contains x v then insert k v m else insert k (v ++ x ∷ []) m

-- `auto it = m.find(k); … erase-remove x …; if (v.empty()) m.erase(it);`
unfoldable pub drop_entry {ℓ κ} :
    {K : Type ℓ} {X : Type κ} ⦃e : Eq K⦄ ⦃f : Eq X⦄ → K → X → List (K × List X) → List (K × List X)
drop_entry k x m = elim (lookup k m) [
  | none ↦ m
  | some v ↦ elim (remove x v) [ [] ↦ erase k m | y ∷ ys ↦ insert k (y ∷ ys) m ]
]

unfoldable pub join : ℕ → Bytes → Membership → Membership
join fd key m = record { members = add_entry key fd m.members; joined = add_entry fd key m.joined }

unfoldable pub leave : ℕ → Bytes → Membership → Membership
leave fd key m = record {
  members = drop_entry key fd m.members;
  joined = drop_entry fd key m.joined;
}

-- `for (const auto& key : cit->second) …` over the keys of one connection.
unfoldable pub leave_each : ℕ → List Bytes → List (Bytes × List ℕ) → List (Bytes × List ℕ)
leave_each fd [] m = m
leave_each fd (key ∷ keys) m = leave_each fd keys (drop_entry key fd m)

unfoldable pub leave_all : ℕ → Membership → Membership
leave_all fd m = elim (lookup fd m.joined) [
  | none ↦ m
  | some keys ↦ record { members = leave_each fd keys m.members; joined = erase fd m.joined }
]

unfoldable pub member_fds : Bytes → Membership → List ℕ
member_fds key m = lookup_or [] key m.members

unfoldable pub keys_of : ℕ → Membership → List Bytes
keys_of fd m = lookup_or [] fd m.joined
