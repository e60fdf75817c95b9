-- ===== src/Server/Relay/Bindings.antt =====
-- server/src/relay.cpp, `bind`, `unbind` and `lookup`: which connection serves which user.
use fin_bit.Prelude.{
  ℕ, ◌≡◌, List, [], ◌∷◌, Option, none, some, Bytes, Eq, ◌==◌, if◌then◌else◌, nat_eq, list_eq,
}
use fin_bit.Prelude.Dict.{lookup, insert, erase}
pub mod Laws

pub record Bindings : Type 0 where
  pub user_to_fd : List (Bytes × ℕ)
  pub fd_to_user : List (ℕ × Bytes)

abbrev pub no_bindings : Bindings
no_bindings = record { user_to_fd = []; fd_to_user = [] }

-- The older connection of the user is forgotten.
evict : Option ℕ → List (ℕ × Bytes) → List (ℕ × Bytes)
evict none m = m
evict (some old) m = erase old m

unfoldable pub bind : ℕ → Bytes → Bindings → Bindings
unfolding evict
bind fd key r = record {
  user_to_fd = insert key fd r.user_to_fd;
  fd_to_user = insert fd key (evict (lookup key r.user_to_fd) r.fd_to_user);
}

-- The user's entry goes only if it still names this connection.
forget_user : ℕ → Bytes → List (Bytes × ℕ) → List (Bytes × ℕ)
forget_user fd key m = elim (lookup key m) [
  | none ↦ m
  | some u ↦ if u == fd then erase key m else m
]

unfoldable pub unbind : ℕ → Bindings → Bindings
unfolding forget_user
unbind fd r = elim (lookup fd r.fd_to_user) [
  | none ↦ r
  | some key ↦ record {
    user_to_fd = forget_user fd key r.user_to_fd;
    fd_to_user = erase fd r.fd_to_user;
  }
]

-- The source answers -1 for `none`.
unfoldable pub find_fd : Bytes → Bindings → Option ℕ
find_fd key r = lookup key r.user_to_fd
