-- ===== src/Net.antt =====
-- core/src/net: the length-prefixed frame codec and the frames of WebSocket.
pub mod FrameCodec
pub mod WebSocket
