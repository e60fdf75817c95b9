-- ===== src/P2P/Kademlia/Table.antt =====
-- The routing table as a whole.
use fin_bit.Prelude.{
  ℕ, ◌≤◌, ◌<◌, ◌≡◌, ◌≢◌, refl, sym, ap, ◌∙◌, subst, List, [], ◌∷◌, some, Bool, Bytes, ◌==◌, ==_iff,
  nat_eq, list_eq, length, length-set, get_or, get_or-set, get_or-replicate, set, leb, eqb,
  if◌then◌else◌, arith, Bool-cases, inl, inr, ◌⊎◌,
}
use fin_bit.P2P.Kademlia.{
  PeerInfo, Bucket, RoutingTable, bucket_size, address_bits, xor_distance, bucket_index, find_peer,
  observe_bucket, observe, new_table,
}
use fin_bit.P2P.Kademlia.Laws.{
  DistinctIds, Observes, refreshed, added, replaced, observe_bucket-Observes,
}

abbrev pub bucket : RoutingTable → ℕ → Bucket
bucket t i = get_or t.buckets i []

-- 160 buckets of at most 16 entries with distinct ids, each id in the bucket of its distance from
-- the node, whose own id is in none.
pub record IsTable (t : RoutingTable) : Type 0 where
  pub sized : length t.buckets ≡ address_bits
  pub within : (i : ℕ) → length (bucket t i) ≤ bucket_size
  pub distinct : (i : ℕ) → DistinctIds (bucket t i)
  pub placed :
      (i : ℕ) (j : Bytes) (p : PeerInfo)
      → find_peer j (bucket t i) ≡ some p
      → (bucket_index (xor_distance t.self j) ≡ i) × (j ≢ t.self)

-- What an observation keeps of its bucket.
Keeps : PeerInfo → Bucket → Bucket → Type 0
Keeps peer b b' =
    (length b' ≤ bucket_size)
    × DistinctIds b'
    × ((j : Bytes) (p : PeerInfo)
        → find_peer j b' ≡ some p
        → (peer.id ≡ j) ⊎ ((q : PeerInfo) × (find_peer j b ≡ some q)))

found_behind :
    (q : PeerInfo) (rest : Bucket) (j : Bytes) (p : PeerInfo)
    → find_peer j rest ≡ some p
    → (r : PeerInfo) × (find_peer j (q ∷ rest) ≡ some r)
unfolding find_peer
found_behind q rest j p h = elim (Bool-cases (q.id == j)) [
  | inl same ↦ (q, ground (arith))
  | inr other ↦ (p, ground (arith))
]

keeps_found :
    (peer new : PeerInfo) (b b' : Bucket)
    → ((j : Bytes) → find_peer j b' ≡ (if peer.id == j then some new else find_peer j b))
    → (j : Bytes) (p : PeerInfo) → find_peer j b' ≡ some p
    → (peer.id ≡ j) ⊎ ((q : PeerInfo) × (find_peer j b ≡ some q))
keeps_found peer new b b' finds j p h = elim (Bool-cases (peer.id == j)) [
  | inl same ↦ inl ((==_iff peer.id j).0 same)
  | inr other ↦ inr (p, ground (arith, finds j))
]

Observes-Keeps :
    {peer : PeerInfo} {b : Bucket} {r : Bool × Bucket}
    → Observes peer b r
    → length b ≤ bucket_size
    → Keeps peer b r.1
unfolding Keeps
Observes-Keeps {peer = peer} {b = b} (refreshed {p = p} {b' = b'} known finds same d) h =
    (omega arith, d, keeps_found peer (record p { addr = peer.addr }) b b' finds)
Observes-Keeps {peer = peer} {b = b} (added {b' = b'} unknown room finds more d) h =
    (omega arith, d, keeps_found peer peer b b' finds)
Observes-Keeps {peer = peer} {b = b}
      (replaced {q = q} {rest = rest} {b' = b'} unknown full is finds same d) h =
    (
      omega arith,
      d,
      λ j p found. elim (keeps_found peer peer rest b' finds j p found) [
        | inl e ↦ inl e
        | inr (r, e) ↦
            let behind = found_behind q rest j r e in
            inr (behind.0, ap (λ c. find_peer j c) is ∙ behind.1)
      ],
    )

set-IsTable :
    (t : RoutingTable) (peer : PeerInfo) (b' : Bucket) (i : ℕ)
    → IsTable t
    → i ≡ bucket_index (xor_distance t.self peer.id)
    → i < length t.buckets
    → peer.id ≢ t.self
    → Keeps peer (bucket t i) b'
    → IsTable (record t { buckets = set t.buckets i b' })
unfolding Keeps
set-IsTable t peer b' i v is_i h foreign k = record {
  sized = length-set t.buckets i b' ∙ v.sized;
  within = λ n. ground (arith, get_or-set t.buckets i n b' [] h, v.within n, k.0);
  distinct = λ n. elim (Bool-cases (eqb i n)) [
    | inl same ↦
        let here : bucket (record t { buckets = set t.buckets i b' }) n ≡ b' =
          ground (arith, get_or-set t.buckets i n b' [] h) in
        subst DistinctIds (sym here) k.1
    | inr other ↦
        let there : bucket (record t { buckets = set t.buckets i b' }) n ≡ bucket t n =
          ground (arith, get_or-set t.buckets i n b' [] h) in
        subst DistinctIds (sym there) (v.distinct n)
  ];
  placed = λ n j p found. elim (Bool-cases (eqb i n)) [
    | inl same ↦
        let here : find_peer j b' ≡ some p =
          ap (λ c. find_peer j c) (sym (ground (arith, get_or-set t.buckets i n b' [] h)))
          ∙ found in
        elim (k.2 j p here) [
          | inl e ↦ (
            ap (λ x. bucket_index (xor_distance t.self x)) (sym e) ∙ sym is_i ∙ ground arith,
            λ own. foreign (e ∙ own),
          )
          | inr (q, e) ↦ let was = v.placed i j q e in (was.0 ∙ ground arith, was.1)
        ]
    | inr other ↦
        v.placed n j p
          (ap (λ c. find_peer j c) (sym (ground (arith, get_or-set t.buckets i n b' [] h))) ∙ found)
  ];
}

pub observe-IsTable : (peer : PeerInfo) (t : RoutingTable) → IsTable t → IsTable (observe peer t).1
unfolding observe
observe-IsTable peer t v =
    let i : ℕ = bucket_index (xor_distance t.self peer.id) in
    elim (Bool-cases (peer.id == t.self)) [
      | inl own ↦ rw (own, observe) v
      | inr foreign ↦ elim (Bool-cases (leb (length t.buckets) i)) [
        | inl outside ↦ rw (foreign, observe) (rw (outside, observe) v)
        | inr inside ↦
            rw (foreign, observe)
              (rw (inside, observe)
                (set-IsTable t peer (observe_bucket peer (bucket t i)).1 i v refl (ground arith)
                  (λ e. ground (arith, ==_iff peer.id t.self))
                  (Observes-Keeps (observe_bucket-Observes peer (bucket t i) (v.distinct i))
                    (v.within i))))
      ]
    ]

abbrev pub observe_all : RoutingTable → List PeerInfo → RoutingTable
observe_all t [] = t
observe_all t (peer ∷ peers) = observe_all (observe peer t).1 peers

observe_all-IsTable :
    (peers : List PeerInfo) (t : RoutingTable) → IsTable t → IsTable (observe_all t peers)
observe_all-IsTable [] t v = v
observe_all-IsTable (peer ∷ peers) t v =
    observe_all-IsTable peers (observe peer t).1 (observe-IsTable peer t v)

new_table-IsTable : (self : Bytes) → IsTable (new_table self)
unfolding find_peer
new_table-IsTable self = record {
  sized = refl;
  within = λ i. omega (arith, ap length (get_or-replicate {A = Bucket} address_bits i []));
  distinct = λ i. subst DistinctIds (sym (get_or-replicate {A = Bucket} address_bits i [])) tt;
  placed = λ i j p found. absurd (
      ground (
        arith,
        ap (λ c. find_peer j c) (sym (get_or-replicate {A = Bucket} address_bits i [])) ∙ found,
      ));
}

-- Whatever peers a node observes, its table has 160 buckets of at most 16 entries with distinct
-- ids, each id stands in the bucket of its distance, and the node's own id in none.
pub observe_all-new_table :
    (self : Bytes) (peers : List PeerInfo) → IsTable (observe_all (new_table self) peers)
observe_all-new_table self peers =
    observe_all-IsTable peers (new_table self) (new_table-IsTable self)
