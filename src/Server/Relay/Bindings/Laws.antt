-- ===== src/Server/Relay/Bindings/Laws.antt =====
-- The two maps of the bindings, and what is true of them after any history.
use fin_bit.Prelude.{
  ℕ, ◌≡◌, ◌≢◌, List, [], ◌∷◌, Option, none, some, Bytes, ◌==◌, ==_iff, ==_refl, if◌then◌else◌,
  nat_eq, list_eq, arith, Option-cases, inl, inr,
}
use fin_bit.Prelude.Dict.{lookup, insert, erase, lookup-insert, lookup-erase}
use fin_bit.Server.Relay.Bindings.{Bindings, no_bindings, evict, forget_user, bind, unbind, find_fd}

-- A connection that is bound to a user is the one that the user is served by.
pub record IsServed (r : Bindings) : Type 0 where
  pub served :
      (fd : ℕ) (key : Bytes) → lookup fd r.fd_to_user ≡ some key → lookup key r.user_to_fd ≡ some fd

pub no_bindings-IsServed : IsServed no_bindings
unfolding lookup
no_bindings-IsServed = record { served = λ fd key h. cc }

lookup-evict :
    (o : Option ℕ) (fd : ℕ) (m : List (ℕ × Bytes)) (key : Bytes)
    → lookup fd (evict o m) ≡ some key
    → (lookup fd m ≡ some key) × (o ≢ some fd)
unfolding evict
lookup-evict none fd m key h = (h, λ e. cc)
lookup-evict (some old) fd m key h = ground (arith, lookup-erase old fd m, ==_refl fd)

pub bind-IsServed : (fd : ℕ) (key : Bytes) (r : Bindings) → IsServed r → IsServed (bind fd key r)
unfolding bind
bind-IsServed fd key r s = record {
  served = λ fd' key' h. ground (
    arith,
    lookup-insert fd fd' key (evict (lookup key r.user_to_fd) r.fd_to_user),
    lookup-insert key key' fd r.user_to_fd,
    lookup-evict (lookup key r.user_to_fd) fd' r.fd_to_user key',
    s.served fd' key',
    ==_iff fd fd',
    ==_iff key key',
  );
}

pub unbind-IsServed : (fd : ℕ) (r : Bindings) → IsServed r → IsServed (unbind fd r)
unfolding unbind forget_user
unbind-IsServed fd r s = elim (Option-cases (lookup fd r.fd_to_user)) [
  | inl e ↦ rw (e, unbind) s
  | inr (key, e) ↦
      rw (e, unbind)
        (record {
          served = λ fd' key' h. ground (
            arith,
            h,
            s.served fd key e,
            s.served fd' key',
            lookup-erase fd fd' r.fd_to_user,
            lookup-erase key key' r.user_to_fd,
            ==_iff fd fd',
            ==_iff key key',
          );
        })
]

-- The calls on the bindings.
pub data Call : Type 0 where
  binds : ℕ → Bytes → Call
  unbinds : ℕ → Call

abbrev pub step : Bindings → Call → Bindings
step r (binds fd key) = bind fd key r
step r (unbinds fd) = unbind fd r

abbrev pub run : Bindings → List Call → Bindings
run r [] = r
run r (c ∷ cs) = run (step r c) cs

step-IsServed : (r : Bindings) (c : Call) → IsServed r → IsServed (step r c)
step-IsServed r (binds fd key) s = bind-IsServed fd key r s
step-IsServed r (unbinds fd) s = unbind-IsServed fd r s

run-IsServed-from : (r : Bindings) (cs : List Call) → IsServed r → IsServed (run r cs)
run-IsServed-from r [] s = s
run-IsServed-from r (c ∷ cs) s = run-IsServed-from (step r c) cs (step-IsServed r c s)

-- After any history of calls, a connection that is bound to a user is the one that a lookup of
-- this user gives. So no user is served by two connections.
pub run-IsServed : (cs : List Call) → IsServed (run no_bindings cs)
run-IsServed cs = run-IsServed-from no_bindings cs no_bindings-IsServed

-- A user's connection is bound to this user.
pub record IsExact (r : Bindings) : Type 0 where
  pub bound : (fd : ℕ) (key : Bytes) → find_fd key r ≡ some fd → lookup fd r.fd_to_user ≡ some key

-- After `bind` the user is served by the new connection, and every other user by the old one.
pub find_fd-bind :
    (fd : ℕ) (key key' : Bytes) (r : Bindings)
    → find_fd key' (bind fd key r) ≡ (if key == key' then some fd else find_fd key' r)
unfolding find_fd bind
find_fd-bind fd key key' r = lookup-insert key key' fd r.user_to_fd

-- A connection that was bound to a user and is bound to another one stays the answer for the
-- first user, also when it is gone: `unbind` only forgets the second user.
pub bind_again_stale :
    (fd : ℕ) (first second : Bytes) (r : Bindings)
    → first ≢ second
    → find_fd first r ≡ some fd
    → find_fd first (unbind fd (bind fd second r)) ≡ some fd
unfolding find_fd bind unbind forget_user
bind_again_stale fd first second r ne h = ground (
  arith,
  lookup-insert fd fd second (evict (lookup second r.user_to_fd) r.fd_to_user),
  lookup-insert second first fd r.user_to_fd,
  lookup-erase second first (insert second fd r.user_to_fd),
  ==_refl fd,
  ==_iff second first,
)

-- If a connection is only ever bound to one user, both maps agree: `bind` keeps them exact.
pub bind-IsExact :
    (fd : ℕ) (key : Bytes) (r : Bindings)
    → IsServed r
    → IsExact r
    → ((k : Bytes) → lookup fd r.fd_to_user ≡ some k → k ≡ key)
    → IsExact (bind fd key r)
unfolding bind find_fd evict
bind-IsExact fd key r s x fresh = record {
  bound = λ fd' key' h. elim (Option-cases (lookup key r.user_to_fd)) [
    | inl e ↦ rw e (
        ground (
          arith,
          h,
          e,
          lookup-insert fd fd' key r.fd_to_user,
          lookup-insert key key' fd r.user_to_fd,
          x.bound fd' key',
          fresh key',
          ==_iff fd fd',
          ==_iff key key',
        ))
    | inr (old, e) ↦ rw e (
        ground (
          arith,
          h,
          e,
          lookup-insert fd fd' key (erase old r.fd_to_user),
          lookup-erase old fd' r.fd_to_user,
          lookup-insert key key' fd r.user_to_fd,
          x.bound fd' key',
          x.bound old key e,
          fresh key',
          ==_iff old fd',
          ==_iff fd fd',
          ==_iff key key',
        ))
  ];
}

pub unbind-IsExact : (fd : ℕ) (r : Bindings) → IsServed r → IsExact r → IsExact (unbind fd r)
unfolding unbind forget_user find_fd
unbind-IsExact fd r s x = elim (Option-cases (lookup fd r.fd_to_user)) [
  | inl e ↦ rw (e, unbind) x
  | inr (key, e) ↦
      rw (e, unbind)
        (record {
          bound = λ fd' key' h. ground (
            arith,
            h,
            s.served fd key e,
            x.bound fd' key',
            lookup-erase fd fd' r.fd_to_user,
            lookup-erase key key' r.user_to_fd,
            ==_iff fd fd',
            ==_iff key key',
            ==_refl fd,
          );
        })
]

pub unbind-forgets :
    (fd : ℕ) (key : Bytes) (r : Bindings)
    → IsServed r
    → IsExact r
    → find_fd key (unbind fd r) ≢ some fd
unfolding unbind forget_user find_fd
unbind-forgets fd key r s x h = elim (Option-cases (lookup fd r.fd_to_user)) [
  | inl e ↦
      let h' : lookup key r.user_to_fd ≡ some fd = rw (e, unbind) at h in
      ground (arith, e, x.bound fd key h')
  | inr (k, e) ↦ ground (
    arith,
    rw (e, unbind) at h,
    e,
    s.served fd k e,
    x.bound fd key,
    lookup-erase k key r.user_to_fd,
    ==_iff k key,
    ==_refl fd,
  )
]
