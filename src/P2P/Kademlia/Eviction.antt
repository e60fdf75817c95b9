-- ===== src/P2P/Kademlia/Eviction.antt =====
-- A full bucket and two new peers.
use fin_bit.Prelude.{◌≤◌, ◌≡◌, ◌≢◌, ◌∷◌, none, ==_iff, nat_eq, list_eq, length, arith}
use fin_bit.P2P.Kademlia.{PeerInfo, Bucket, bucket_size, find_peer, observe_bucket, replace_front}

-- Of two new peers that come to a full bucket one after the other, the second takes the place of
-- the first: the first is gone, and the entries that were seen before it all stay.
pub observe_bucket_newcomers :
    (first second q : PeerInfo) (rest : Bucket)
    → bucket_size ≤ length (q ∷ rest)
    → find_peer first.id (q ∷ rest) ≡ none
    → find_peer second.id (q ∷ rest) ≡ none
    → second.id ≢ first.id
    → ((observe_bucket second (observe_bucket first (q ∷ rest)).1).1 ≡ second ∷ rest)
      × (find_peer first.id (second ∷ rest) ≡ none)
unfolding observe_bucket find_peer replace_front
observe_bucket_newcomers first second q rest full new_first new_second differ = (
  ground (arith, ==_iff first.id second.id, ==_iff second.id first.id),
  ground (arith, ==_iff second.id first.id),
)
