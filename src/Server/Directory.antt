-- ===== src/Server/Directory.antt =====
-- server/src/directory.cpp: usernames, identity keys and prekey bundles, cached in memory and
-- mirrored to the tables `srv_directory` and `srv_prekey_bundles` of
-- core/src/store/sqlite_store.cpp. A username reaches the table as a C string, so the table keeps
-- the bytes before its first zero. A failing SQL statement and the column `updated_ms` are not
-- modelled; where several names have one key, the SQL leaves open which one a reverse lookup
-- gives, and the first row is taken here.
use fin_bit.Prelude.{
  ℕ, ◌≡◌, List, [], ◌∷◌, Option, none, some, Bytes, c_str, Eq, ◌==◌, if◌then◌else◌, nat_eq, list_eq,
  Bool, true, false,
}
use fin_bit.Prelude.Dict.{lookup, insert}
pub mod Invariant
pub mod Owners
pub mod Restart
mod Tests

-- The two tables, each with its primary key.
pub record Tables : Type 0 where
  pub names : List (Bytes × Bytes)
  pub bundles : List (Bytes × Bytes)

pub record Directory : Type 0 where
  pub name_to_pub : List (Bytes × Bytes)
  pub name_to_bundle : List (Bytes × Bytes)
  pub store : Option Tables

-- `INSERT … ON CONFLICT(username) DO UPDATE SET pubkey = excluded.pubkey`
unfoldable pub srv_register_user : Bytes → Bytes → Tables → Tables
unfolding c_str
srv_register_user username pubkey t = record t { names = insert (c_str username) pubkey t.names }

unfoldable pub srv_resolve_username : Bytes → Tables → Option Bytes
unfolding c_str
srv_resolve_username username t = lookup (c_str username) t.names

-- The first entry with this value: a scan of the map, and `SELECT … WHERE pubkey = ? LIMIT 1`.
unfoldable pub find_name : Bytes → List (Bytes × Bytes) → Option Bytes
find_name pubkey [] = none
find_name pubkey ((name, p) ∷ m) = if p == pubkey then some name else find_name pubkey m

unfoldable pub srv_reverse_resolve_pubkey : Bytes → Tables → Option Bytes
unfolding find_name c_str
srv_reverse_resolve_pubkey pubkey t = elim (find_name pubkey t.names) [
  | none ↦ none
  | some name ↦ some (c_str name)
]

unfoldable pub srv_put_prekey_bundle : Bytes → Bytes → Tables → Tables
srv_put_prekey_bundle owner bundle t = record t { bundles = insert owner bundle t.bundles }

unfoldable pub srv_get_prekey_bundle : Bytes → Tables → Option Bytes
srv_get_prekey_bundle owner t = lookup owner t.bundles

-- `if (store_) …`
abbrev pub mirrored : (Tables → Tables) → Option Tables → Option Tables
mirrored f none = none
mirrored f (some t) = some (f t)

abbrev pub asked : (Tables → Option Bytes) → Option Tables → Option Bytes
asked f none = none
asked f (some t) = f t

unfoldable pub register_user : Bytes → Bytes → Directory → Bool × Directory
unfolding srv_register_user
register_user username pubkey d = elim (lookup username d.name_to_pub) [
  | some owner ↦ (owner == pubkey, d)
  | none ↦ (
    true,
    record d {
      name_to_pub = insert username pubkey d.name_to_pub;
      store = mirrored (srv_register_user username pubkey) d.store;
    },
  )
]

unfoldable pub put_bundle : Bytes → Bytes → Directory → Directory
unfolding srv_put_prekey_bundle
put_bundle key bundle d = record d {
  name_to_bundle = insert key bundle d.name_to_bundle;
  store = mirrored (srv_put_prekey_bundle key bundle) d.store;
}

-- A miss in memory asks the store, and what it gives is cached.
unfoldable pub get_bundle : Bytes → Directory → Option Bytes × Directory
unfolding srv_get_prekey_bundle
get_bundle key d = elim (lookup key d.name_to_bundle) [
  | some bundle ↦ (some bundle, d)
  | none ↦ elim (asked (srv_get_prekey_bundle key) d.store) [
    | none ↦ (none, d)
    | some loaded ↦ (some loaded, record d { name_to_bundle = insert key loaded d.name_to_bundle })
  ]
]

unfoldable pub resolve : Bytes → Directory → Option Bytes × Directory
unfolding srv_resolve_username
resolve username d = elim (lookup username d.name_to_pub) [
  | some owner ↦ (some owner, d)
  | none ↦ elim (asked (srv_resolve_username username) d.store) [
    | none ↦ (none, d)
    | some loaded ↦ (some loaded, record d { name_to_pub = insert username loaded d.name_to_pub })
  ]
]

unfoldable pub reverse_resolve : Bytes → Directory → Option Bytes × Directory
unfolding find_name srv_reverse_resolve_pubkey
reverse_resolve pubkey d = elim (find_name pubkey d.name_to_pub) [
  | some name ↦ (some name, d)
  | none ↦ elim (asked (srv_reverse_resolve_pubkey pubkey) d.store) [
    | none ↦ (none, d)
    | some loaded ↦ (some loaded, record d { name_to_pub = insert loaded pubkey d.name_to_pub })
  ]
]
