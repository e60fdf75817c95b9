-- ===== src/Server/Relay.antt =====
-- server/src/relay.hpp: the routing state of the relay server. A public key, a group id and a
-- room id are byte strings; a file descriptor is a number, since only open ones are bound. Each
-- method runs under one mutex and is one step.
pub mod Bindings
pub mod Membership
pub mod Offline
pub mod State
mod Tests
