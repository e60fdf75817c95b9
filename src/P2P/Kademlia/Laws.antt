-- ===== src/P2P/Kademlia/Laws.antt =====
-- The buckets of a routing table.
use fin_bit.Prelude.{
  ◌+◌, ◌≤◌, ◌<◌, ◌≡◌, refl, [], ◌∷◌, ◌++◌, none, some, Bool, true, false, Bytes, ◌==◌, ==_iff,
  nat_eq, list_eq, length, length-append, ltb, if◌then◌else◌, arith, Bool-cases, Option-cases, inl,
  inr,
}
use fin_bit.P2P.Kademlia.{
  PeerInfo, Bucket, bucket_size, find_peer, erase_peer, replace_front, observe_bucket,
}

-- No two entries have one id.
abbrev pub DistinctIds : Bucket → Type 0
DistinctIds [] = Unit
DistinctIds (p ∷ b) = (find_peer p.id b ≡ none) × DistinctIds b

find_peer-snoc :
    (j : Bytes) (p : PeerInfo) (b : Bucket)
    → find_peer j (b ++ p ∷ [])
      ≡ elim (find_peer j b) [ some q ↦ some q | none ↦ if p.id == j then some p else none ]
unfolding find_peer
find_peer-snoc j p [] = refl
find_peer-snoc j p (q ∷ b) = ground (arith, find_peer-snoc j p b)

find_peer-erase_peer :
    (j k : Bytes) (b : Bucket)
    → DistinctIds b
    → find_peer j (erase_peer k b) ≡ (if k == j then none else find_peer j b)
unfolding find_peer erase_peer
find_peer-erase_peer j k [] d = ground arith
find_peer-erase_peer j k (q ∷ b) d =
    ground (arith, find_peer-erase_peer j k b d.1, ==_iff q.id k, ==_iff q.id j, ==_iff k j, d.0)

find_peer_lem : (j : Bytes) (p : PeerInfo) (b : Bucket) → find_peer j b ≡ some p → p.id ≡ j
unfolding find_peer
find_peer_lem j p [] h = absurd (ground arith)
find_peer_lem j p (q ∷ b) h = ground (arith, find_peer_lem j p b, ==_iff q.id j)

snoc-DistinctIds :
    (p : PeerInfo) (b : Bucket)
    → DistinctIds b
    → find_peer p.id b ≡ none
    → DistinctIds (b ++ p ∷ [])
unfolding find_peer
snoc-DistinctIds p [] d h = (refl, tt)
snoc-DistinctIds p (q ∷ b) d h = (
  ground (arith, find_peer-snoc q.id p b, d.0, ==_iff q.id p.id, ==_iff p.id q.id),
  snoc-DistinctIds p b d.1 (ground arith),
)

erase_peer-DistinctIds : (k : Bytes) (b : Bucket) → DistinctIds b → DistinctIds (erase_peer k b)
unfolding erase_peer
erase_peer-DistinctIds k [] d = d
erase_peer-DistinctIds k (q ∷ b) d = elim (Bool-cases (q.id == k)) [
  | inl same ↦ rw (same, erase_peer) d.1
  | inr other ↦
      rw (other, erase_peer)
        (ground (arith, find_peer-erase_peer q.id k b d.1, d.0), erase_peer-DistinctIds k b d.1)
]

length-erase_peer :
    (k : Bytes) (p : PeerInfo) (b : Bucket)
    → find_peer k b ≡ some p
    → length (erase_peer k b) + 1 ≡ length b
unfolding erase_peer find_peer
length-erase_peer k p [] h = absurd (ground arith)
length-erase_peer k p (q ∷ b) h = ground (arith, length-erase_peer k p b)

-- What an observation makes of the bucket `b`: the peer moves to the end with its new address; or
-- it is added at the end; or, in a full bucket, it takes the place of the first entry.
pub data Observes (peer : PeerInfo) (b : Bucket) : Bool × Bucket → Type 0 where
  refreshed :
      {p : PeerInfo} {b' : Bucket}
      → find_peer peer.id b ≡ some p
      → ((j : Bytes)
          → find_peer j b'
            ≡ (if peer.id == j then some (record p { addr = peer.addr }) else find_peer j b))
      → length b' ≡ length b
      → DistinctIds b'
      → Observes peer b (false, b')
  added :
      {b' : Bucket}
      → find_peer peer.id b ≡ none
      → length b < bucket_size
      → ((j : Bytes) → find_peer j b' ≡ (if peer.id == j then some peer else find_peer j b))
      → length b' ≡ length b + 1
      → DistinctIds b'
      → Observes peer b (true, b')
  replaced :
      {q : PeerInfo} {rest b' : Bucket}
      → find_peer peer.id b ≡ none
      → bucket_size ≤ length b
      → b ≡ q ∷ rest
      → ((j : Bytes) → find_peer j b' ≡ (if peer.id == j then some peer else find_peer j rest))
      → length b' ≡ length b
      → DistinctIds b'
      → Observes peer b (true, b')

refreshed_bucket :
    (peer p : PeerInfo) (b : Bucket)
    → DistinctIds b
    → find_peer peer.id b ≡ some p
    → Observes peer b (false, erase_peer peer.id b ++ record p { addr = peer.addr } ∷ [])
refreshed_bucket peer p b d known =
    let new : PeerInfo = record p { addr = peer.addr } in
    let same : p.id ≡ peer.id = find_peer_lem peer.id p b known in
    refreshed known
      (λ j. ground (
        arith,
        find_peer-snoc j new (erase_peer peer.id b),
        find_peer-erase_peer j peer.id b d,
        ==_iff p.id j,
        ==_iff peer.id j,
      ))
      (omega (
        arith,
        length-append (erase_peer peer.id b) (new ∷ []),
        length-erase_peer peer.id p b known,
      ))
      (snoc-DistinctIds new (erase_peer peer.id b) (erase_peer-DistinctIds peer.id b d)
        (ground (arith, find_peer-erase_peer p.id peer.id b d, ==_iff peer.id p.id)))

replaced_bucket :
    (peer : PeerInfo) (b : Bucket)
    → DistinctIds b
    → find_peer peer.id b ≡ none
    → bucket_size ≤ length b
    → Observes peer b (true, replace_front peer b)
unfolding replace_front find_peer
replaced_bucket peer [] d unknown full = absurd (omega arith)
replaced_bucket peer (q ∷ b) d unknown full =
    replaced unknown full refl (λ j. refl) refl (ground arith, d.1)

-- What `observe` does to the bucket of a peer, in each of its three cases.
pub observe_bucket-Observes :
    (peer : PeerInfo) (b : Bucket) → DistinctIds b → Observes peer b (observe_bucket peer b)
unfolding observe_bucket
observe_bucket-Observes peer b d = elim (Option-cases (find_peer peer.id b)) [
  | inr (p, known) ↦ rw (known, observe_bucket) (refreshed_bucket peer p b d known)
  | inl unknown ↦ elim (Bool-cases (ltb (length b) bucket_size)) [
    | inl room ↦
        rw (unknown, observe_bucket)
          (rw (room, observe_bucket)
            (added unknown (ground arith)
              (λ j. ground (arith, find_peer-snoc j peer b, ==_iff peer.id j, unknown))
              (omega (arith, length-append b (peer ∷ []))) (snoc-DistinctIds peer b d unknown)))
    | inr full ↦
        rw (unknown, observe_bucket)
          (rw (full, observe_bucket) (replaced_bucket peer b d unknown (ground arith)))
  ]
]
