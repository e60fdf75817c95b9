-- ===== src/Identity.antt =====
-- core/src/identity: who owns a name.
pub mod UsernameLog
pub mod UsernameGossip
