-- ===== src/P2P.antt =====
-- core/src/p2p: the routing table and the offline relay of a peer.
pub mod OfflineRelay
pub mod Kademlia
pub mod Gossip
pub mod ChannelGossip
