-- ===== src/Server/Directory/Restart.antt =====
-- server/src/directory.cpp: what is found after a restart.
use fin_bit.Prelude.{
  ◌≡◌, refl, sym, ◌∙◌, subst, List, [], ◌∷◌, Option, none, some, Bytes, c_str, ==_iff, ==_refl,
  nat_eq, list_eq, true, arith, Option-cases, inl, inr,
}
use fin_bit.Prelude.Dict.{lookup, insert, lookup-insert, Distinct, insert-Distinct}
use fin_bit.Server.Directory.{
  Tables, Directory, srv_register_user, srv_resolve_username, srv_reverse_resolve_pubkey,
  srv_put_prekey_bundle, srv_get_prekey_bundle, find_name, register_user, put_bundle, get_bundle,
  resolve, reverse_resolve,
}
use fin_bit.Server.Directory.Invariant.{
  ArePlain, Call, registers, puts, gets, resolves, reverses, run, step, dir, find_name-lookup,
  insert-ArePlain,
}

-- Every cached entry is in its table.
abbrev Cached : List (Bytes × Bytes) → List (Bytes × Bytes) → Type 0
Cached m t = (k v : Bytes) → lookup k m ≡ some v → lookup k t ≡ some v

insert-Cached :
    (k v : Bytes) (m t : List (Bytes × Bytes)) → Cached m t → Cached (insert k v m) (insert k v t)
insert-Cached k v m t c j w h =
    ground (arith, h, lookup-insert k j v m, lookup-insert k j v t, c j w)

load-Cached :
    (k v : Bytes) (m t : List (Bytes × Bytes))
    → Cached m t
    → lookup k t ≡ some v
    → Cached (insert k v m) t
load-Cached k v m t c l j w h = ground (arith, h, lookup-insert k j v m, c j w, ==_iff k j)

-- The names of a call have no zero byte.
abbrev pub IsPlain : Call → Type 0
IsPlain (registers username pubkey) = c_str username ≡ username
IsPlain (puts key bundle) = Unit
IsPlain (gets key) = Unit
IsPlain (resolves username) = c_str username ≡ username
IsPlain (reverses pubkey) = Unit

abbrev pub AllPlain : List Call → Type 0
AllPlain [] = Unit
AllPlain (c ∷ cs) = IsPlain c × AllPlain cs

-- There is a store, and the caches hold what it holds.
abbrev IsCurrent : Option Tables → List (Bytes × Bytes) → List (Bytes × Bytes) → Type 0
IsCurrent none m b = ⊥
IsCurrent (some t) m b = Distinct t.names × ArePlain t.names × Cached m t.names × Cached b t.bundles

abbrev AsStored : Directory → Type 0
AsStored d = IsCurrent d.store d.name_to_pub d.name_to_bundle

module _ (m b : List (Bytes × Bytes)) (t : Tables) where
  register_user-AsStored :
      (username pubkey : Bytes)
      → c_str username ≡ username
      → IsCurrent (some t) m b
      → AsStored (register_user username pubkey (dir m b (some t))).1
  unfolding register_user srv_register_user
  register_user-AsStored username pubkey plain v = elim (Option-cases (lookup username m)) [
    | inr (owner, e) ↦ rw (e, register_user) v
    | inl e ↦
        rw (e, register_user)
          (
            insert-Distinct (c_str username) pubkey t.names v.0,
            insert-ArePlain username pubkey t.names v.1,
            subst (λ k. Cached (insert username pubkey m) (insert k pubkey t.names)) (sym plain)
                (insert-Cached username pubkey m t.names v.2),
            v.3,
          )
  ]

  put_bundle-AsStored :
      (key bundle : Bytes)
      → IsCurrent (some t) m b
      → AsStored (put_bundle key bundle (dir m b (some t)))
  unfolding put_bundle srv_put_prekey_bundle
  put_bundle-AsStored key bundle v = (v.0, v.1, v.2, insert-Cached key bundle b t.bundles v.3)

  get_bundle-AsStored :
      (key : Bytes) → IsCurrent (some t) m b → AsStored (get_bundle key (dir m b (some t))).1
  unfolding get_bundle srv_get_prekey_bundle
  get_bundle-AsStored key v = elim (Option-cases (lookup key b)) [
    | inr (x, e) ↦ rw (e, get_bundle) v
    | inl e ↦ elim (Option-cases (lookup key t.bundles)) [
      | inl f ↦ rw (e, get_bundle, f) v
      | inr (loaded, f) ↦
          rw (e, get_bundle, f) (v.0, v.1, v.2, load-Cached key loaded b t.bundles v.3 f)
    ]
  ]

  resolve-AsStored :
      (username : Bytes)
      → c_str username ≡ username
      → IsCurrent (some t) m b
      → AsStored (resolve username (dir m b (some t))).1
  unfolding resolve srv_resolve_username
  resolve-AsStored username plain v = elim (Option-cases (lookup username m)) [
    | inr (x, e) ↦ rw (e, resolve) v
    | inl e ↦ elim (Option-cases (lookup (c_str username) t.names)) [
      | inl f ↦ rw (e, resolve, f) v
      | inr (loaded, f) ↦
          let row = subst (λ k. lookup k t.names ≡ some loaded) plain f in
          rw (e, resolve, f) (v.0, v.1, load-Cached username loaded m t.names v.2 row, v.3)
    ]
  ]

  reverse_resolve-AsStored :
      (pubkey : Bytes)
      → IsCurrent (some t) m b
      → AsStored (reverse_resolve pubkey (dir m b (some t))).1
  unfolding reverse_resolve srv_reverse_resolve_pubkey
  reverse_resolve-AsStored pubkey v = elim (Option-cases (find_name pubkey m)) [
    | inr (x, e) ↦ rw (e, reverse_resolve) v
    | inl e ↦ elim (Option-cases (find_name pubkey t.names)) [
      | inl f ↦ rw (e, reverse_resolve, f) v
      | inr (name, f) ↦
          let row = find_name-lookup pubkey name t.names v.0 f in
          rw (e, reverse_resolve, f)
            (rw (v.1 name pubkey row) (v.0, v.1, load-Cached name pubkey m t.names v.2 row, v.3))
    ]
  ]

step-AsStored :
    (m b : List (Bytes × Bytes)) (o : Option Tables) (c : Call)
    → IsPlain c
    → IsCurrent o m b
    → AsStored (step (dir m b o) c)
step-AsStored m b none c plain v = absurd v
step-AsStored m b (some t) (registers username pubkey) plain v =
    register_user-AsStored m b t username pubkey plain v
step-AsStored m b (some t) (puts key bundle) plain v = put_bundle-AsStored m b t key bundle v
step-AsStored m b (some t) (gets key) plain v = get_bundle-AsStored m b t key v
step-AsStored m b (some t) (resolves username) plain v = resolve-AsStored m b t username plain v
step-AsStored m b (some t) (reverses pubkey) plain v = reverse_resolve-AsStored m b t pubkey v

run-AsStored : (d : Directory) (cs : List Call) → AllPlain cs → AsStored d → AsStored (run d cs)
run-AsStored d [] plain v = v
run-AsStored d (c ∷ cs) (p, plain) v =
    run-AsStored (step d c) cs plain (step-AsStored d.name_to_pub d.name_to_bundle d.store c p v)

-- The server after a restart: the caches are empty, the tables are as they were.
abbrev pub restarted : Tables → Directory
restarted t = record { name_to_pub = []; name_to_bundle = []; store = some t }

restarted-AsStored : (t : Tables) → Distinct t.names → ArePlain t.names → AsStored (restarted t)
unfolding lookup
restarted-AsStored t d plain = (d, plain, (λ k v h. cc), (λ k v h. cc))

-- The caches cannot be told from the tables.
resolve-names :
    (m b : List (Bytes × Bytes)) (t : Tables) (name : Bytes)
    → c_str name ≡ name
    → Cached m t.names
    → (resolve name (dir m b (some t))).0 ≡ lookup (c_str name) t.names
unfolding resolve srv_resolve_username
resolve-names m b t name plain c = elim (Option-cases (lookup name m)) [
  | inr (x, e) ↦ rw (e, resolve) (sym (rw plain (c name x e)))
  | inl e ↦ elim (Option-cases (lookup (c_str name) t.names)) [
    | inl f ↦ rw (e, resolve, f)
    | inr (loaded, f) ↦ rw (e, resolve, f)
  ]
]

get_bundle-bundles :
    (m b : List (Bytes × Bytes)) (t : Tables) (key : Bytes)
    → Cached b t.bundles
    → (get_bundle key (dir m b (some t))).0 ≡ lookup key t.bundles
unfolding get_bundle srv_get_prekey_bundle
get_bundle-bundles m b t key c = elim (Option-cases (lookup key b)) [
  | inr (x, e) ↦ rw (e, get_bundle) (sym (c key x e))
  | inl e ↦ elim (Option-cases (lookup key t.bundles)) [
    | inl f ↦ rw (e, get_bundle, f)
    | inr (loaded, f) ↦ rw (e, get_bundle, f)
  ]
]

reads_same :
    (m b : List (Bytes × Bytes)) (o : Option Tables) (name key : Bytes)
    → c_str name ≡ name
    → IsCurrent o m b
    → (u : Tables) × (o ≡ some u)
      × ((resolve name (restarted u)).0 ≡ (resolve name (dir m b o)).0)
      × ((get_bundle key (restarted u)).0 ≡ (get_bundle key (dir m b o)).0)
unfolding lookup
reads_same m b none name key plain v = absurd v
reads_same m b (some t) name key plain v = (
  t,
  refl,
  resolve-names [] [] t name plain (λ k w h. cc) ∙ sym (resolve-names m b t name plain v.2),
  get_bundle-bundles [] [] t key (λ k w h. cc) ∙ sym (get_bundle-bundles m b t key v.3),
)

-- If a server starts on tables whose names are distinct and have no zero byte, and no name that is
-- registered or resolved has one, then after any calls names without a zero byte and bundles are
-- found after a restart as they would be without it.
pub restart_reads :
    (t : Tables) (cs : List Call) (name key : Bytes)
    → Distinct t.names
    → ArePlain t.names
    → AllPlain cs
    → c_str name ≡ name
    → (u : Tables) × ((run (restarted t) cs).store ≡ some u)
      × ((resolve name (restarted u)).0 ≡ (resolve name (run (restarted t) cs)).0)
      × ((get_bundle key (restarted u)).0 ≡ (get_bundle key (run (restarted t) cs)).0)
restart_reads t cs name key distinct plain calls_plain name_plain =
    let d = run (restarted t) cs in
    reads_same d.name_to_pub d.name_to_bundle d.store name key name_plain
      (run-AsStored (restarted t) cs calls_plain (restarted-AsStored t distinct plain))

resolve-cached :
    (d : Directory) (username pubkey : Bytes)
    → lookup username d.name_to_pub ≡ some pubkey
    → (resolve username d).0 ≡ some pubkey
unfolding resolve
resolve-cached d username pubkey e = rw (e, resolve)

lookup_inserted : (k v : Bytes) (m : List (Bytes × Bytes)) → lookup k (insert k v m) ≡ some v
lookup_inserted k v m = ground (arith, lookup-insert k k v m, ==_refl k)

-- A registration only asks the cache. So the first registration of a name after a restart succeeds
-- for any key, whatever the table says of the name, and from then on the directory gives this key
-- for the name.
pub register_user-restarted :
    (t : Tables) (username pubkey : Bytes)
    → ((register_user username pubkey (restarted t)).0 ≡ true)
      × ((resolve username (register_user username pubkey (restarted t)).1).0 ≡ some pubkey)
unfolding register_user lookup srv_register_user
register_user-restarted t username pubkey =
    (refl, resolve-cached _ username pubkey (lookup_inserted username pubkey []))
