-- ===== src/Server/Directory/Owners.antt =====
-- server/src/directory.cpp: who owns a name after any calls in one run of the server.
use fin_bit.Prelude.{
  ◌≡◌, List, some, Bytes, ◌==◌, ==_iff, ==_refl, nat_eq, list_eq, true, arith, Option-cases, inl,
  inr,
}
use fin_bit.Prelude.Dict.{lookup, lookup-insert}
use fin_bit.Server.Directory.{Directory, register_user}
use fin_bit.Server.Directory.Invariant.{IsValid, Call, run, run-Keeps, register_user-Keeps}

register_user-owned :
    (d : Directory) (username pubkey other : Bytes)
    → lookup username d.name_to_pub ≡ some pubkey
    → (register_user username other d).0 ≡ (pubkey == other)
unfolding register_user
register_user-owned d username pubkey other e = rw (e, register_user)

register_user-caches :
    (d : Directory) (username pubkey : Bytes)
    → (register_user username pubkey d).0 ≡ true
    → lookup username (register_user username pubkey d).1.name_to_pub ≡ some pubkey
unfolding register_user
register_user-caches d username pubkey h = elim (Option-cases (lookup username d.name_to_pub)) [
  | inr (owner, e) ↦
      let same : (owner == pubkey) ≡ true = rw (e, register_user) at h in
      rw (e, register_user) (ground (arith, e, same, ==_iff owner pubkey))
  | inl e ↦
      rw (e, register_user)
        (ground (arith, lookup-insert username username pubkey d.name_to_pub, ==_refl username))
]

-- A name that was registered in this run of the server stays with its key: after any further
-- calls a registration of the name succeeds for this key and fails for every other one.
pub register_user_first :
    (d : Directory) (username pubkey other : Bytes) (cs : List Call)
    → IsValid d
    → (register_user username pubkey d).0 ≡ true
    → (register_user username other (run (register_user username pubkey d).1 cs)).0
      ≡ (pubkey == other)
register_user_first d username pubkey other cs v h =
    let d' = (register_user username pubkey d).1 in
    let v' = register_user-Keeps d.name_to_pub d.name_to_bundle d.store username pubkey v in
    register_user-owned (run d' cs) username pubkey other
      ((run-Keeps d' cs v'.0).1 username pubkey (register_user-caches d username pubkey h))
