-- ===== src/Server/Relay/State/Laws.antt =====
-- A connection that closes leaves nothing behind, if it was only ever bound to one user.
use fin_bit.Prelude.{ℕ, ◌≡◌, ◌≢◌, ◌∙◌, some, Bytes, ==_refl, nat_eq, list_eq, false}
use fin_bit.Prelude.Dict.{lookup}
use fin_bit.Prelude.Collections.{contains}
use fin_bit.Server.Relay.Bindings.{Bindings, bind, unbind, find_fd}
use fin_bit.Server.Relay.Bindings.Laws.{
  IsServed, IsExact, bind-IsServed, bind-IsExact, unbind-IsServed, unbind-IsExact, unbind-forgets,
  no_bindings-IsServed,
}
use fin_bit.Server.Relay.Membership.Laws as Rooms
use fin_bit.Server.Relay.State.{
  Relay, new_relay, bind_user, enqueue, drain, channel_subscribe, channel_unsubscribe,
  channel_subscribers, room_join, room_leave, room_member_fds, close_conn,
}

-- What the server's event loop does to the relay. `authenticates` is the end of a handshake.
pub data Call : Type 0 where
  authenticates : ℕ → Bytes → Call
  queues : Bytes → Bytes → ℕ → Call
  fetches : Bytes → Call
  subscribes unsubscribes enters exits : ℕ → Bytes → Call
  closes : ℕ → Call

abbrev pub step : Relay → Call → Relay
step r (authenticates fd key) = bind_user fd key r
step r (queues key envelope now) = enqueue key envelope now r
step r (fetches key) = (drain key r).1
step r (subscribes fd key) = channel_subscribe fd key r
step r (unsubscribes fd key) = channel_unsubscribe fd key r
step r (enters fd key) = room_join fd key r
step r (exits fd key) = room_leave fd key r
step r (closes fd) = close_conn fd r

-- A connection is not bound to a second user.
abbrev pub OneUser : Relay → Call → Type 0
OneUser r (authenticates fd key) = (k : Bytes) → lookup fd r.bindings.fd_to_user ≡ some k → k ≡ key
OneUser r _ = Unit

-- The states that the event loop can reach.
pub data Reach : Relay → Type 0 where
  start : Reach new_relay
  next : {r : Relay} → Reach r → (c : Call) → OneUser r c → Reach (step r c)

pub record IsConsistent (r : Relay) : Type 0 where
  pub is_served : IsServed r.bindings
  pub is_exact : IsExact r.bindings
  pub channel_pairs : Rooms.Pairs
  pub channels_hold : Rooms.Holds channel_pairs r.channels
  pub room_pairs : Rooms.Pairs
  pub rooms_hold : Rooms.Holds room_pairs r.rooms

-- A state from its parts.
parts :
    (r : Relay)
    → IsServed r.bindings
    → IsExact r.bindings
    → (p : Rooms.Pairs) → Rooms.Holds p r.channels
    → (q : Rooms.Pairs) → Rooms.Holds q r.rooms
    → IsConsistent r
parts r s x p hp q hq = record {
  is_served = s;
  is_exact = x;
  channel_pairs = p;
  channels_hold = hp;
  room_pairs = q;
  rooms_hold = hq;
}

module _ (r : Relay) (v : IsConsistent r) where
  with_bindings : (b : Bindings) → IsServed b → IsExact b → IsConsistent (record r { bindings = b })
  with_bindings b s x = parts _ s x v.channel_pairs v.channels_hold v.room_pairs v.rooms_hold

  with_channels : (c : Rooms.Call) → IsConsistent (record r { channels = Rooms.step r.channels c })
  with_channels c =
      parts _ v.is_served v.is_exact _
        (Rooms.step-Holds v.channel_pairs r.channels c v.channels_hold) v.room_pairs v.rooms_hold

  with_rooms : (c : Rooms.Call) → IsConsistent (record r { rooms = Rooms.step r.rooms c })
  with_rooms c =
      parts _ v.is_served v.is_exact v.channel_pairs v.channels_hold _
        (Rooms.step-Holds v.room_pairs r.rooms c v.rooms_hold)

step-IsConsistent : (r : Relay) (c : Call) → OneUser r c → IsConsistent r → IsConsistent (step r c)
unfolding bind_user enqueue drain channel_subscribe channel_unsubscribe room_join room_leave
    close_conn
step-IsConsistent r (authenticates fd key) o v =
    with_bindings r v (bind fd key r.bindings) (bind-IsServed fd key r.bindings v.is_served)
      (bind-IsExact fd key r.bindings v.is_served v.is_exact o)
step-IsConsistent r (queues key envelope now) o v =
    parts _ v.is_served v.is_exact v.channel_pairs v.channels_hold v.room_pairs v.rooms_hold
step-IsConsistent r (fetches key) o v =
    parts _ v.is_served v.is_exact v.channel_pairs v.channels_hold v.room_pairs v.rooms_hold
step-IsConsistent r (subscribes fd key) o v = with_channels r v (Rooms.Call.joins fd key)
step-IsConsistent r (unsubscribes fd key) o v = with_channels r v (Rooms.Call.leaves fd key)
step-IsConsistent r (enters fd key) o v = with_rooms r v (Rooms.Call.joins fd key)
step-IsConsistent r (exits fd key) o v = with_rooms r v (Rooms.Call.leaves fd key)
step-IsConsistent r (closes fd) o v =
    let b =
      with_bindings r v (unbind fd r.bindings) (unbind-IsServed fd r.bindings v.is_served)
        (unbind-IsExact fd r.bindings v.is_served v.is_exact) in
    with_rooms _ (with_channels _ b (Rooms.Call.closes fd)) (Rooms.Call.closes fd)

new_relay-IsConsistent : IsConsistent new_relay
unfolding find_fd lookup
new_relay-IsConsistent =
    parts new_relay no_bindings-IsServed (record { bound = λ fd key h. cc }) _
      Rooms.no_members-Holds _ Rooms.no_members-Holds

Reach-IsConsistent : {r : Relay} → Reach r → IsConsistent r
Reach-IsConsistent start = new_relay-IsConsistent
Reach-IsConsistent (next {r = r} w c o) = step-IsConsistent r c o (Reach-IsConsistent w)

-- Nothing of a connection is left.
pub record IsGone (fd : ℕ) (r : Relay) : Type 0 where
  pub serves_nobody : (key : Bytes) → find_fd key r.bindings ≢ some fd
  pub hears_nothing : (key : Bytes) → contains fd (channel_subscribers key r) ≡ false
  pub in_no_room : (key : Bytes) → contains fd (room_member_fds key r) ≡ false

-- In every state that the event loop can reach without binding a connection to a second user,
-- closing a connection removes it from every channel and every room, and no user is served by it.
pub close_conn-IsGone : {r : Relay} (fd : ℕ) → Reach r → IsGone fd (close_conn fd r)
unfolding close_conn channel_subscribers room_member_fds
close_conn-IsGone {r} fd w =
    let v = Reach-IsConsistent w in
    record {
      serves_nobody = λ key. unbind-forgets fd key r.bindings v.is_served v.is_exact;
      hears_nothing = λ key.
          (Rooms.step-Holds v.channel_pairs r.channels (Rooms.Call.closes fd)
              v.channels_hold).as_members
            fd key
          ∙ rw (==_refl fd);
      in_no_room = λ key.
          (Rooms.step-Holds v.room_pairs r.rooms (Rooms.Call.closes fd) v.rooms_hold).as_members fd
            key
          ∙ rw (==_refl fd);
    }
