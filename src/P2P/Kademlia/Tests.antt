-- ===== src/P2P/Kademlia/Tests.antt =====
-- A table with a few peers. The ids have one byte.
use fin_bit.Prelude.{ℕ, List, [], ◌∷◌, replicate, nat_eq, list_eq}
use fin_bit.P2P.Kademlia.{PeerInfo, Bucket, RoutingTable, new_table}
use fin_bit.P2P.Kademlia.Table as Table
use fin_bit.P2P.Kademlia.Table.{IsTable, observe_all}
use fin_bit.P2P.Kademlia.Closest as Closest

abbrev peer_of : ℕ → PeerInfo
peer_of n = record { id = n ∷ []; addr = 1 ∷ []; pubkey = [] }

abbrev three : List PeerInfo
three = peer_of 1 ∷ peer_of 2 ∷ peer_of 200 ∷ []

observe_all-new_table_example : IsTable (observe_all (new_table (7 ∷ [])) three)
observe_all-new_table_example = Table.observe_all-new_table (7 ∷ []) three

abbrev small_table : RoutingTable
small_table = record { self = 7 ∷ []; buckets = three ∷ [] }

abbrev others : Bucket
others = replicate 15 (peer_of 9)
