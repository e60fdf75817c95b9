-- ===== src/Server/Directory/Invariant.antt =====
-- server/src/directory.cpp: no call takes a cached name from its owner.
use fin_bit.Prelude.{
  ◌≡◌, ◌≢◌, sym, ap, subst, ◌∙◌, List, [], ◌∷◌, Option, none, some, Bytes, c_str, c_str-c_str, ◌==◌,
  ==_iff, Bool-cases, nat_eq, list_eq, arith, Option-cases, inl, inr,
}
use fin_bit.Prelude.Dict.{lookup, insert, lookup-insert, Distinct, insert-Distinct}
use fin_bit.Server.Directory.{
  Tables, Directory, srv_register_user, srv_resolve_username, srv_reverse_resolve_pubkey,
  srv_put_prekey_bundle, find_name, mirrored, register_user, put_bundle, get_bundle, resolve,
  reverse_resolve,
}

pub find_name-lookup :
    (pubkey name : Bytes) (m : List (Bytes × Bytes))
    → Distinct m
    → find_name pubkey m ≡ some name
    → lookup name m ≡ some pubkey
unfolding find_name lookup
find_name-lookup pubkey name [] d h = cc
find_name-lookup pubkey name ((n, p) ∷ m) d h =
    ground (arith, ==_iff p pubkey, ==_iff n name, find_name-lookup pubkey name m d.1)

find_name-none :
    (pubkey name : Bytes) (m : List (Bytes × Bytes))
    → find_name pubkey m ≡ none
    → lookup name m ≢ some pubkey
unfolding find_name lookup
find_name-none pubkey name [] h e = cc
find_name-none pubkey name ((n, p) ∷ m) h e =
    ground (arith, ==_iff p pubkey, ==_iff n name, find_name-none pubkey name m)

-- The names of a table have no zero byte.
abbrev pub ArePlain : List (Bytes × Bytes) → Type 0
ArePlain t = (name p : Bytes) → lookup name t ≡ some p → c_str name ≡ name

-- A row whose name is cached for another key has its key cached under another name.
abbrev pub Agrees : List (Bytes × Bytes) → List (Bytes × Bytes) → Type 0
Agrees m t =
    (name p owner : Bytes)
    → lookup name t ≡ some p
    → lookup name m ≡ some owner
    → find_name p m ≡ none
    → owner ≡ p

abbrev pub Mirrors : Option Tables → List (Bytes × Bytes) → Type 0
Mirrors none m = Unit
Mirrors (some t) m = Distinct t.names × ArePlain t.names × Agrees m t.names

pub record IsValid (d : Directory) : Type 0 where
  pub mirrors : Mirrors d.store d.name_to_pub

pub insert-ArePlain :
    (username p : Bytes) (t : List (Bytes × Bytes))
    → ArePlain t
    → ArePlain (insert (c_str username) p t)
insert-ArePlain username p t plain name q h = ground (
  arith,
  h,
  lookup-insert (c_str username) name p t,
  plain name q,
  c_str-c_str username,
  ==_iff (c_str username) name,
)

-- A key that is not found after an entry was added is another one, and was not found before.
find_name-insert :
    (k v p : Bytes) (m : List (Bytes × Bytes))
    → ((w : Bytes) → lookup k m ≡ some w → w ≡ v)
    → find_name p (insert k v m) ≡ none
    → (v ≢ p) × (find_name p m ≡ none)
unfolding find_name lookup insert
find_name-insert k v p [] same h = ground (arith, ==_iff v p)
find_name-insert k v p ((j, w) ∷ m) same h = elim (Bool-cases (j == k)) [
  | inl here ↦ ground (arith, ==_iff v p, ==_iff w p, same w)
  | inr other ↦
      let ih = find_name-insert k v p m (λ x e. same x (ground arith)) in ground (arith, ih)
]

register-Agrees :
    (username pubkey : Bytes) (m t : List (Bytes × Bytes))
    → lookup username m ≡ none
    → ArePlain t
    → Agrees m t
    → Agrees (insert username pubkey m) (insert (c_str username) pubkey t)
register-Agrees username pubkey m t miss plain agrees name p owner in_t in_m unfound =
    let (other, old) =
      find_name-insert username pubkey p m (λ w e. absurd (ground arith)) unfound in
    let row = lookup-insert (c_str username) name pubkey t in
    let cached = lookup-insert username name pubkey m in
    elim (Bool-cases (c_str username == name)) [
      | inl here ↦ absurd (ground (arith, row, here, in_t, other))
      | inr away ↦
          let old_row : lookup name t ≡ some p = ground (arith, row, away, in_t) in
          elim (Bool-cases (username == name)) [
            | inl mine ↦
                let e : username ≡ name = (==_iff username name).0 mine in
                let same : c_str username ≡ name = ap c_str e ∙ plain name p old_row in
                absurd (ground (arith, (==_iff (c_str username) name).1 same, away))
            | inr else ↦ agrees name p owner old_row (ground (arith, cached, else, in_m)) old
          ]
    ]

-- A name is cached with the key of its row.
load-Agrees :
    (username pubkey : Bytes) (m t : List (Bytes × Bytes))
    → ((w : Bytes) → lookup username m ≡ some w → w ≡ pubkey)
    → lookup (c_str username) t ≡ some pubkey
    → ArePlain t
    → Agrees m t
    → Agrees (insert username pubkey m) t
load-Agrees username pubkey m t same row plain agrees name p owner in_t in_m unfound =
    let (other, old) = find_name-insert username pubkey p m same unfound in
    let cached = lookup-insert username name pubkey m in
    elim (Bool-cases (username == name)) [
      | inl mine ↦
          let e : username ≡ name = (==_iff username name).0 mine in
          let here : c_str username ≡ name = ap c_str e ∙ plain name p in_t in
          let found : lookup name t ≡ some pubkey =
            subst (λ k. lookup k t ≡ some pubkey) here row in
          ground (arith, found, in_t, cached, mine, in_m)
      | inr else ↦ agrees name p owner in_t (ground (arith, cached, else, in_m)) old
    ]

-- The calls on the directory.
pub data Call : Type 0 where
  registers puts : Bytes → Bytes → Call
  gets resolves reverses : Bytes → Call

abbrev pub step : Directory → Call → Directory
step d (registers username pubkey) = (register_user username pubkey d).1
step d (puts key bundle) = put_bundle key bundle d
step d (gets key) = (get_bundle key d).1
step d (resolves username) = (resolve username d).1
step d (reverses pubkey) = (reverse_resolve pubkey d).1

abbrev pub run : Directory → List Call → Directory
run d [] = d
run d (c ∷ cs) = run (step d c) cs

-- A call keeps the invariant and the owner of each cached name.
abbrev pub Keeps : Directory → Directory → Type 0
Keeps d d' =
    IsValid d'
    × ((k v : Bytes) → lookup k d.name_to_pub ≡ some v → lookup k d'.name_to_pub ≡ some v)

module _ (m b : List (Bytes × Bytes)) where
  abbrev pub dir : Option Tables → Directory
  dir o = record { name_to_pub = m; name_to_bundle = b; store = o }

  pub register_user-Keeps :
      (o : Option Tables) (username pubkey : Bytes)
      → IsValid (dir o)
      → Keeps (dir o) (register_user username pubkey (dir o)).1
  unfolding register_user
  register_user-Keeps o username pubkey v = elim (Option-cases (lookup username m)) [
    | inr (owner, e) ↦ rw (e, register_user) (v, λ k w h. h)
    | inl e ↦
        rw (e, register_user)
          (
            record { mirrors = stored o e v.mirrors },
            λ k w h. ground (arith, h, e, lookup-insert username k pubkey m, ==_iff username k),
          )
  ]
    where
      stored :
          (o : Option Tables)
          → lookup username m ≡ none
          → Mirrors o m
          → Mirrors (mirrored (srv_register_user username pubkey) o) (insert username pubkey m)
      stored none e v = tt
      stored (some t) e v = (
        insert-Distinct (c_str username) pubkey t.names v.0,
        insert-ArePlain username pubkey t.names v.1,
        register-Agrees username pubkey m t.names e v.1 v.2,
      )

  get_bundle-Keeps :
      (o : Option Tables) (key : Bytes) → IsValid (dir o) → Keeps (dir o) (get_bundle key (dir o)).1
  unfolding get_bundle
  get_bundle-Keeps none key v = elim (Option-cases (lookup key b)) [
    | inr (x, e) ↦ rw (e, get_bundle) (v, λ k w h. h)
    | inl e ↦ rw (e, get_bundle) (v, λ k w h. h)
  ]
  get_bundle-Keeps (some t) key v = elim (Option-cases (lookup key b)) [
    | inr (x, e) ↦ rw (e, get_bundle) (v, λ k w h. h)
    | inl e ↦ elim (Option-cases (lookup key t.bundles)) [
      | inl f ↦ rw (e, get_bundle, f) (v, λ k w h. h)
      | inr (loaded, f) ↦ rw (e, get_bundle, f) (record { mirrors = v.mirrors }, λ k w h. h)
    ]
  ]

  -- A row that is loaded takes no cached name from its owner.
  load-Keeps :
      (t : Tables) (name pubkey : Bytes)
      → IsValid (dir (some t))
      → ((w : Bytes) → lookup name m ≡ some w → w ≡ pubkey)
      → lookup (c_str name) t.names ≡ some pubkey
      → Keeps
          (dir (some t))
          (record { name_to_pub = insert name pubkey m; name_to_bundle = b; store = some t })
  load-Keeps t name pubkey v same row = (
    record {
      mirrors = (
        v.mirrors.0,
        v.mirrors.1,
        load-Agrees name pubkey m t.names same row v.mirrors.1 v.mirrors.2,
      );
    },
    λ k w h. elim (Bool-cases (name == k)) [
      | inl here ↦
          let e : name ≡ k = (==_iff name k).0 here in
          let kept = same w (subst (λ j. lookup j m ≡ some w) (sym e) h) in
          ground (arith, here, kept, lookup-insert name k pubkey m)
      | inr away ↦ ground (arith, away, h, lookup-insert name k pubkey m)
    ],
  )

  resolve-Keeps :
      (o : Option Tables) (username : Bytes)
      → IsValid (dir o)
      → Keeps (dir o) (resolve username (dir o)).1
  unfolding resolve srv_resolve_username
  resolve-Keeps none username v = elim (Option-cases (lookup username m)) [
    | inr (x, e) ↦ rw (e, resolve) (v, λ k w h. h)
    | inl e ↦ rw (e, resolve) (v, λ k w h. h)
  ]
  resolve-Keeps (some t) username v = elim (Option-cases (lookup username m)) [
    | inr (x, e) ↦ rw (e, resolve) (v, λ k w h. h)
    | inl e ↦ elim (Option-cases (lookup (c_str username) t.names)) [
      | inl f ↦ rw (e, resolve, f) (v, λ k w h. h)
      | inr (loaded, f) ↦
          rw (e, resolve, f) (load-Keeps t username loaded v (λ w h. absurd (ground arith)) f)
    ]
  ]

  reverse_resolve-Keeps :
      (o : Option Tables) (pubkey : Bytes)
      → IsValid (dir o)
      → Keeps (dir o) (reverse_resolve pubkey (dir o)).1
  unfolding reverse_resolve srv_reverse_resolve_pubkey
  reverse_resolve-Keeps none pubkey v = elim (Option-cases (find_name pubkey m)) [
    | inr (x, e) ↦ rw (e, reverse_resolve) (v, λ k w h. h)
    | inl e ↦ rw (e, reverse_resolve) (v, λ k w h. h)
  ]
  reverse_resolve-Keeps (some t) pubkey v = elim (Option-cases (find_name pubkey m)) [
    | inr (x, e) ↦ rw (e, reverse_resolve) (v, λ k w h. h)
    | inl e ↦ elim (Option-cases (find_name pubkey t.names)) [
      | inl f ↦ rw (e, reverse_resolve, f) (v, λ k w h. h)
      | inr (name, f) ↦
          let row = find_name-lookup pubkey name t.names v.mirrors.0 f in
          let plain = v.mirrors.1 name pubkey row in
          rw (e, reverse_resolve, f)
            (rw plain (
              load-Keeps t name pubkey v (λ w h. v.mirrors.2 name pubkey w row h e)
                (subst (λ k. lookup k t.names ≡ some pubkey) (sym plain) row)))
    ]
  ]

put_bundle-Mirrors :
    (key bundle : Bytes) (m : List (Bytes × Bytes)) (o : Option Tables)
    → Mirrors o m
    → Mirrors (mirrored (srv_put_prekey_bundle key bundle) o) m
unfolding srv_put_prekey_bundle
put_bundle-Mirrors key bundle m none v = tt
put_bundle-Mirrors key bundle m (some t) v = v

step-Keeps : (d : Directory) (c : Call) → IsValid d → Keeps d (step d c)
unfolding put_bundle
step-Keeps d (registers username pubkey) v =
    register_user-Keeps d.name_to_pub d.name_to_bundle d.store username pubkey v
step-Keeps d (puts key bundle) v =
    (record { mirrors = put_bundle-Mirrors key bundle d.name_to_pub d.store v.mirrors }, λ k w h. h)
step-Keeps d (gets key) v = get_bundle-Keeps d.name_to_pub d.name_to_bundle d.store key v
step-Keeps d (resolves username) v = resolve-Keeps d.name_to_pub d.name_to_bundle d.store username v
step-Keeps d (reverses pubkey) v =
    reverse_resolve-Keeps d.name_to_pub d.name_to_bundle d.store pubkey v

pub run-Keeps : (d : Directory) (cs : List Call) → IsValid d → Keeps d (run d cs)
run-Keeps d [] v = (v, λ k w h. h)
run-Keeps d (c ∷ cs) v =
    let s = step-Keeps d c v in
    let r = run-Keeps (step d c) cs s.0 in (r.0, λ k w h. r.1 k w (s.1 k w h))
