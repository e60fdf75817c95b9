-- ===== src/P2P/Kademlia/Closest.antt =====
-- The peers nearest to an id.
