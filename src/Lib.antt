-- ===== src/Lib.antt =====
-- FinBit: an end-to-end encrypted messenger. Its C++ core (core/) has the cryptography, the wire
-- formats, the calls and the peer-to-peer part; a relay server (server/) connects clients and holds
-- what they cannot fetch yet. This library models the deterministic core of both and states what
-- makes it correct.
--
-- The parts and their files
-- - Prelude: names shared by all modules. Prelude/Dict: std::map and std::unordered_map as
--   association lists; Prelude/Lists and Prelude/ByteStrings: vectors, strings and spans as lists of
--   numbers below 256, big-endian fields; Prelude/Xor: `^` of bytes; Prelude/Result: exceptions.
-- - Server/Relay/Bindings, Membership, Offline: the class Relay of server/src/relay.cpp, one module
--   for each group of its fields (bind, unbind, lookup; channel_* and room_*, which run the same code
--   on two pairs of maps; enqueue_offline, drain_offline with the table of core/src/store/
--   sqlite_store.cpp). Server/Relay/State: the whole object, and what close_conn of
--   server/src/relay_server.cpp does to it.
-- - Server/Directory: server/src/directory.cpp, with the server tables of the store behind it.
-- - Net/FrameCodec: core/src/net/frame_codec.cpp with the read loop of core/src/p2p/gossip.cpp that
--   drives it. Net/WebSocket: the frames of core/src/net/websocket.cpp and its FrameParser.
-- - Crypto/Padding: core/src/crypto/padding.cpp. Crypto/Hkdf: core/src/crypto/hkdf.cpp.
--   Crypto/Aead: core/src/crypto/aead.cpp. Crypto/SenderKeys: core/src/crypto/sender_keys.cpp, on
--   AEAD. Crypto/Shamir: core/src/crypto/shamir.cpp, with the field of its bytes and Lagrange's
--   interpolation.
-- - Media/Sframe: core/src/media/sframe.cpp, on HKDF and AEAD. Media/RoomKeys:
--   core/src/media/room_keys.cpp, on Sframe's key derivation. Media/Forwarding: the election, the plans
--   and the routing of core/src/media/forwarder.cpp.
-- - Crypto/DoubleRatchet: core/src/crypto/ratchet.cpp, on HKDF and AEAD.
--   Crypto/SkippedKeys: the cache of passed-over keys, which it shares with Crypto/SenderKeys.
-- - Identity/UsernameLog: core/src/identity/username_log.cpp. Identity/UsernameGossip:
--   core/src/identity/username_gossip.cpp, which fills the logs of two replicas.
-- - P2P/Gossip: core/src/p2p/gossip.cpp, on the routing table of P2P/Kademlia.
-- - P2P/ChannelGossip: core/src/p2p/channel_gossip.cpp, the names of the topics. Media/TrackBindings:
--   core/src/media/track_bindings.cpp. Media/ActiveSpeaker: core/src/media/active_speaker.cpp, with
--   Prelude/Sorting for std::partial_sort, as P2P/Kademlia has it for std::sort.
-- - Ratelimit/TokenBucket: core/src/ratelimit/token_bucket.cpp.
-- - P2P/OfflineRelay: core/src/p2p/offline_relay.cpp. P2P/Kademlia: core/src/p2p/kademlia.cpp.
-- - Store/AttachmentFrame: core/src/store/attachment_frame.cpp.
-- Definitions keep the names of the source, in snake case; each file's comment says which code it is
-- about. A method of a class takes the object's state and returns the new one. Every class here that
-- is shared between threads locks one mutex in each method, so a method is one step and a history is
-- a list of calls.
--
-- Interfaces
-- Crypto/Sodium is the record of libsodium's functions and, apart from it, the record of what its
-- documentation says of them (a decryption undoes the encryption, lengths); HKDF, AEAD, SFrame and
-- the room keys take both as section parameters. Clocks, random masks and bytes and
-- SHA-256 are arguments.
-- Crypto/X25519 does the same for the Diffie-Hellman functions that the ratchet uses. Ed25519 is an
-- argument of the username log.
-- Prelude.Eq is the interface of equality, given for numbers, byte strings and pairs.
--
-- Bounds and fuel
-- Numbers are natural numbers; where the source has a fixed width and a value can pass it, the
-- wrap-around is written out (the 32-bit length of a frame, the sums of times in the offline relay,
-- the 8-bit counter of HKDF); the times of the username log are compared with a sign, as SQLite
-- does. HKDF runs on 255 blocks of fuel, which is the largest length it
-- accepts. The decoder's drain loop has one round for each byte in its buffer, and every frame takes
-- at least 4. Passing over indices of a sender's chain has one round for each index. The parser of
-- WebSocket has one more round than bytes, and every frame takes at least 2.
--
-- What is not modelled
-- Sockets, TLS, protobuf messages, SQL beyond the server tables and the username log, MLS and the
-- post-quantum primitives, which are calls of libraries or of the system; the user interfaces; the
-- DHT, the distribution tree of a call, SOCKS5, the mesh bridges and the
-- server's handlers, which this library does not reach yet. The rounding of floating point and errors
-- of SQLite are left out of the parts that are modelled.
pub mod Prelude
pub mod Crypto
pub mod Net
pub mod P2P
pub mod Server
pub mod Store
pub mod Identity
pub mod Ratelimit
pub mod Media
