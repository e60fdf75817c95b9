-- ===== src/Server/Relay/State.antt =====
-- server/src/relay.cpp: the methods of `Relay` on its whole state, and what the server does with
-- it when a connection closes (server/src/relay_server.cpp, `close_conn`).
use fin_bit.Prelude.{ℕ, ◌≡◌, List, [], ◌∷◌, none, Option, Bytes}
use fin_bit.Server.Relay.Bindings.{Bindings, no_bindings, bind, unbind, find_fd}
use fin_bit.Server.Relay.Membership.{
  Membership, no_members, join, leave, leave_all, member_fds, keys_of,
}
use fin_bit.Server.Relay.Offline.{Offline, enqueue_offline, drain_offline}
pub mod Laws

pub record Relay : Type 0 where
  pub bindings : Bindings
  pub offline : Offline
  pub channels : Membership
  pub rooms : Membership

abbrev pub new_relay : Relay
new_relay = record {
  bindings = no_bindings;
  offline = record { queues = []; persistent = none };
  channels = no_members;
  rooms = no_members;
}

unfoldable pub bind_user : ℕ → Bytes → Relay → Relay
bind_user fd user_pubkey r = record r { bindings = bind fd user_pubkey r.bindings }

unfoldable pub unbind_user : ℕ → Relay → Relay
unbind_user fd r = record r { bindings = unbind fd r.bindings }

unfoldable pub enqueue : Bytes → Bytes → ℕ → Relay → Relay
enqueue user_pubkey envelope now r = record r {
  offline = enqueue_offline user_pubkey envelope now r.offline;
}

unfoldable pub drain : Bytes → Relay → List Bytes × Relay
drain user_pubkey r = (
  (drain_offline user_pubkey r.offline).0,
  record r { offline = (drain_offline user_pubkey r.offline).1 },
)

unfoldable pub channel_subscribe : ℕ → Bytes → Relay → Relay
channel_subscribe fd group_id r = record r { channels = join fd group_id r.channels }

unfoldable pub channel_unsubscribe : ℕ → Bytes → Relay → Relay
channel_unsubscribe fd group_id r = record r { channels = leave fd group_id r.channels }

unfoldable pub channel_subscribers : Bytes → Relay → List ℕ
channel_subscribers group_id r = member_fds group_id r.channels

unfoldable pub unbind_all_channels : ℕ → Relay → Relay
unbind_all_channels fd r = record r { channels = leave_all fd r.channels }

unfoldable pub room_join : ℕ → Bytes → Relay → Relay
room_join fd room_id r = record r { rooms = join fd room_id r.rooms }

unfoldable pub room_leave : ℕ → Bytes → Relay → Relay
room_leave fd room_id r = record r { rooms = leave fd room_id r.rooms }

unfoldable pub room_member_fds : Bytes → Relay → List ℕ
room_member_fds room_id r = member_fds room_id r.rooms

unfoldable pub room_member_rooms : ℕ → Relay → List Bytes
room_member_rooms fd r = keys_of fd r.rooms

unfoldable pub unbind_all_rooms : ℕ → Relay → Relay
unbind_all_rooms fd r = record r { rooms = leave_all fd r.rooms }

-- `relay.unbind(fd); relay.unbind_all_channels(fd); relay.unbind_all_rooms(fd);`
unfoldable pub close_conn : ℕ → Relay → Relay
unfolding unbind_user unbind_all_channels unbind_all_rooms
close_conn fd r = unbind_all_rooms fd (unbind_all_channels fd (unbind_user fd r))
