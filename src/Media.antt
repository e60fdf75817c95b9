-- ===== src/Media.antt =====
-- core/src/media: the keys of a call and what its forwarder passes on.
pub mod Sframe
pub mod RoomKeys
pub mod Forwarding
pub mod TrackBindings
pub mod ActiveSpeaker
