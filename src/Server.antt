-- ===== src/Server.antt =====
-- server/src: the relay's routing state and the username directory.
pub mod Relay
pub mod Directory
