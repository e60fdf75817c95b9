-- ===== src/P2P/Kademlia.antt =====
-- core/src/p2p/kademlia.cpp: the routing table of a node. A node id has 20 bytes; SHA-256, from
-- which node_id_from_pubkey makes it, is an argument.
use fin_bit.Prelude.{
  ℕ, zero, suc, ◌+◌, ◌*◌, ◌/◌, ◌%◌, ◌^◌, ◌≡◌, List, [], ◌∷◌, ◌++◌, Option, none, some, Bool, true,
  false, Bytes, byte_xor, less, Eq, ◌==◌, nat_eq, list_eq, length, get_or, set, take, replicate,
  ltb, leb, eqb, if◌then◌else◌,
}
use fin_bit.Prelude.Sorting.{sort}
pub mod Laws
pub mod Table
pub mod Closest
pub mod Eviction
mod Tests

abbrev pub node_id_bytes : ℕ
node_id_bytes = 20

abbrev pub address_bits : ℕ
address_bits = 160

abbrev pub bucket_size : ℕ
bucket_size = 16

pub record PeerInfo : Type 0 where
  pub id : Bytes
  pub addr : Bytes
  pub pubkey : Bytes

unfoldable pub node_id_from_pubkey : (Bytes → Bytes) → Bytes → Bytes
node_id_from_pubkey sha256 pubkey = take node_id_bytes (sha256 pubkey)

unfoldable pub xor_distance : Bytes → Bytes → Bytes
xor_distance [] b = []
xor_distance (x ∷ xs) [] = []
xor_distance (x ∷ xs) (y ∷ ys) = byte_xor x y ∷ xor_distance xs ys

-- The highest bit of a byte, below the given one.
unfoldable pub highest_bit : ℕ → ℕ → Option ℕ
highest_bit zero x = none
highest_bit (suc bit) x = if eqb (x / 2 ^ bit % 2) 1 then some bit else highest_bit bit x

-- `kNodeIdBytes - 1 - i` is the number of bytes that follow.
unfoldable pub bucket_index : Bytes → ℕ
unfolding highest_bit
bucket_index [] = address_bits
bucket_index (x ∷ rest) =
    let later = bucket_index rest in
    if eqb x 0
    then later
    else elim (highest_bit 8 x) [ none ↦ later | some bit ↦ length rest * 8 + bit ]

abbrev pub Bucket : Type 0
Bucket = List PeerInfo

pub record RoutingTable : Type 0 where
  pub self : Bytes
  pub buckets : List Bucket

abbrev pub new_table : Bytes → RoutingTable
new_table self = record { self = self; buckets = replicate address_bits [] }

-- `find_if`
unfoldable pub find_peer : Bytes → Bucket → Option PeerInfo
find_peer id [] = none
find_peer id (p ∷ b) = if p.id == id then some p else find_peer id b

-- `b.erase(it)`
unfoldable pub erase_peer : Bytes → Bucket → Bucket
erase_peer id [] = []
erase_peer id (p ∷ b) = let rest = erase_peer id b in if p.id == id then b else p ∷ rest

-- `b.front() = peer`
unfoldable pub replace_front : PeerInfo → Bucket → Bucket
replace_front peer [] = []
replace_front peer (p ∷ b) = peer ∷ b

-- What becomes of the peer's bucket. Of a peer that is known only the address is renewed.
unfoldable pub observe_bucket : PeerInfo → Bucket → Bool × Bucket
unfolding find_peer erase_peer replace_front
observe_bucket peer b = elim (find_peer peer.id b) [
  | some p ↦ (false, erase_peer peer.id b ++ record p { addr = peer.addr } ∷ [])
  | none ↦
      if ltb (length b) bucket_size then (true, b ++ peer ∷ []) else (true, replace_front peer b)
]

unfoldable pub observe : PeerInfo → RoutingTable → Bool × RoutingTable
unfolding xor_distance bucket_index observe_bucket
observe peer t =
    let idx = bucket_index (xor_distance t.self peer.id) in
    let r = observe_bucket peer (get_or t.buckets idx []) in
    if peer.id == t.self
    then (false, t)
    else (if leb (length t.buckets) idx
        then (false, t)
        else (r.0, record t { buckets = set t.buckets idx r.1 }))

unfoldable pub all_peers : List Bucket → List PeerInfo
all_peers [] = []
all_peers (b ∷ bs) = b ++ all_peers bs

unfoldable pub size : List Bucket → ℕ
size [] = 0
size (b ∷ bs) = length b + size bs

-- The comparison of `std::sort`: by the distance to the target.
unfoldable pub nearer : Bytes → PeerInfo → PeerInfo → Bool
unfolding less xor_distance
nearer target a b = less (xor_distance a.id target) (xor_distance b.id target)

unfoldable pub closest : Bytes → ℕ → RoutingTable → List PeerInfo
unfolding all_peers nearer sort
closest target limit t =
    let sorted = sort (nearer target) (all_peers t.buckets) in
    if ltb limit (length sorted) then take limit sorted else sorted
