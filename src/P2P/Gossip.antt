-- ===== src/P2P/Gossip.antt =====
-- core/src/p2p/gossip.cpp: a node of the gossip network. Each event is handled under one mutex, so
-- it is one step. A message is what protobuf parses it to, `serialize` gives its bytes, and the
-- write buffer of a connection is the list of the messages whose frames it holds (Net/FrameCodec).
-- Nonces and message ids that are drawn at random, sockets and their numbers are arguments.
use fin_bit.Prelude.{
  ℕ, zero, suc, ◌+◌, ◌-◌, List, [], ◌∷◌, ◌++◌, Option, none, some, Bool, true, false, not, ◌&&◌,
  ◌||◌, Bytes, Eq, ◌==◌, nat_eq, list_eq, length, drop, replicate, ltb, leb, eqb, if◌then◌else◌,
}
use fin_bit.Prelude.Dict.{lookup, lookup_or, insert, erase}
use fin_bit.Prelude.Collections.{contains, remove}
use fin_bit.Media.Forwarding.{set_insert}
use fin_bit.P2P.Kademlia.{
  PeerInfo, RoutingTable, new_table, observe, closest, size, node_id_bytes, bucket_size,
}
pub mod Memory
pub mod Run
pub mod Once
pub mod Relaying
mod Tests

abbrev pub seen_message_cap : ℕ
seen_message_cap = 4096

-- A `PeerInfo` of the wire.
pub record WirePeer : Type 0 where
  pub node_id : Bytes
  pub addr : Bytes

pub record Publish : Type 0 where
  pub sender : WirePeer
  pub topic : Bytes
  pub message_id : Bytes
  pub payload : Bytes
  pub ttl : ℕ

-- A `P2PMessage`.
pub data Message : Type 0 where
  ping pong : (sender : WirePeer) (nonce : Bytes) → Message
  find_node : (sender : WirePeer) (target : Bytes) → Message
  find_node_resp : (sender : WirePeer) (peers : List WirePeer) → Message
  subscribe unsubscribe : (sender : WirePeer) (topic : Bytes) → Message
  publish : Publish → Message
  no_body : Message

pub record PeerConn : Type 0 where
  pub write_buf : List Message
  pub peer : PeerInfo
  pub peer_known : Bool

abbrev pub Conns : Type 0
Conns = List (ℕ × PeerConn)

pub record Node : Type 0 where
  pub self_id : Bytes
  pub self_addr : Bytes
  pub table : RoutingTable
  pub conns : Conns
  pub id_to_fd : List (Bytes × ℕ)
  pub my_topics : List Bytes
  pub topic_subs : List (Bytes × List Bytes)
  pub seen_order : List Bytes
  pub seen_set : List Bytes

abbrev pub no_peer : PeerInfo
no_peer = record { id = replicate node_id_bytes 0; addr = []; pubkey = [] }

unfoldable pub new_node : Bytes → Bytes → Node
new_node self_id self_addr = record {
  self_id = self_id;
  self_addr = self_addr;
  table = new_table self_id;
  conns = [];
  id_to_fd = [];
  my_topics = [];
  topic_subs = [];
  seen_order = [];
  seen_set = [];
}

-- A call of `on_topic`.
pub record Delivery : Type 0 where
  pub topic : Bytes
  pub payload : Bytes
  pub origin : PeerInfo

-- `seen_set.erase(seen_order.front())`
unfoldable pub forget_front : List Bytes → List Bytes → List Bytes
forget_front [] set = set
forget_front (oldest ∷ order) set = remove oldest set

-- Whether the id was seen, and the memory with it.
unfoldable pub seen_recently : Bytes → Node → Bool × Node
unfolding forget_front
seen_recently mid node =
    let full = leb seen_message_cap (length node.seen_order) in
    let order = if full then drop 1 node.seen_order else node.seen_order in
    let set = if full then forget_front node.seen_order node.seen_set else node.seen_set in
    if contains mid node.seen_set
    then (true, node)
    else (false, record node { seen_order = order ++ mid ∷ []; seen_set = mid ∷ set })

unfoldable pub self_info : Node → WirePeer
self_info node = record { node_id = node.self_id; addr = node.self_addr }

unfoldable pub from_proto : WirePeer → PeerInfo
from_proto p = record {
  id = if length p.node_id == node_id_bytes then p.node_id else replicate node_id_bytes 0;
  addr = p.addr;
  pubkey = [];
}

unfoldable pub to_proto : PeerInfo → WirePeer
to_proto p = record { node_id = p.id; addr = p.addr }

unfoldable pub enqueue : Message → PeerConn → PeerConn
enqueue m c = record c { write_buf = c.write_buf ++ m ∷ [] }

-- A change of the connection that is handled.
unfoldable pub at_conn : ℕ → (PeerConn → PeerConn) → Conns → Conns
at_conn fd change [] = []
at_conn fd change ((other, c) ∷ conns) =
    if other == fd then (other, change c) ∷ conns else (other, c) ∷ at_conn fd change conns

unfoldable pub send : ℕ → Message → Node → Node
unfolding at_conn enqueue
send fd m node = record node { conns = at_conn fd (enqueue m) node.conns }

-- `send_to_all`
unfoldable pub send_to_all : Message → Conns → Conns
unfolding enqueue
send_to_all m [] = []
send_to_all m ((fd, c) ∷ conns) =
    (fd, if c.peer_known then enqueue m c else c) ∷ send_to_all m conns

unfoldable pub send_topics : ℕ → WirePeer → List Bytes → Node → Node
unfolding send
send_topics fd me [] node = node
send_topics fd me (t ∷ topics) node = send_topics fd me topics (send fd (subscribe me t) node)

unfoldable pub send_my_subscriptions : ℕ → Node → Node
unfolding send_topics self_info
send_my_subscriptions fd node = send_topics fd (self_info node) node.my_topics node

unfoldable pub on_handshake_observed : ℕ → PeerInfo → Node → Node
unfolding send_my_subscriptions at_conn
on_handshake_observed fd peer node = send_my_subscriptions fd (record node {
  conns = at_conn fd (λ c. record c { peer = peer; peer_known = true }) node.conns;
  id_to_fd = insert peer.id fd node.id_to_fd;
  table = (observe peer node.table).1;
})

-- `if (peer.id != self_id) table.observe(peer)`
unfoldable pub observe_other : PeerInfo → Node → Node
observe_other peer node =
    if peer.id == node.self_id then node else record node { table = (observe peer node.table).1 }

unfoldable pub observe_others : List WirePeer → Node → Node
unfolding observe_other from_proto
observe_others [] node = node
observe_others (p ∷ peers) node = observe_others peers (observe_other (from_proto p) node)

unfoldable pub to_protos : List PeerInfo → List WirePeer
unfolding to_proto
to_protos [] = []
to_protos (p ∷ peers) = to_proto p ∷ to_protos peers

-- The loop that relays: not to where the message came from, nor to its origin, nor to whom the guard
-- refuses.
unfoldable pub relay : (PeerInfo → Bool) → ℕ → Bytes → Message → Conns → Conns
unfolding enqueue
relay guard fd origin m [] = []
relay guard fd origin m ((other, c) ∷ conns) =
    let takes = not (other == fd) && c.peer_known && not (c.peer.id == origin) && guard c.peer in
    (other, if takes then enqueue m c else c) ∷ relay guard fd origin m conns

-- A subscription of a peer: `topic_subs[topic].insert(id)`, a set of node ids.
unfoldable pub add_subscriber : Bytes → Bytes → Node → Node
add_subscriber topic id node = record node {
  topic_subs = insert topic (set_insert id (lookup_or [] topic node.topic_subs)) node.topic_subs;
}

unfoldable pub drop_subscriber : Bytes → Bytes → Node → Node
drop_subscriber topic id node = elim (lookup topic node.topic_subs) [
  | none ↦ node
  | some ids ↦ record node { topic_subs = insert topic (remove id ids) node.topic_subs }
]

-- The environment: the callback of the application, if it has set one, is `listens`; the carry guard
-- is a test on a peer and a size.
pub record Environment : Type 0 where
  pub serialize : Message → Bytes
  pub carry_guard : PeerInfo → ℕ → Bool
  pub listens : Bool

module _ (env : Environment) where
  unfoldable pub deliver : Publish → Node → List Delivery
  unfolding from_proto
  deliver p node =
      if contains p.topic node.my_topics && env.listens
      then record { topic = p.topic; payload = p.payload; origin = from_proto p.sender } ∷ []
      else []

  unfoldable pub forward : ℕ → Publish → Node → Node
  unfolding relay from_proto
  forward fd p node =
      let m = publish (record p { ttl = p.ttl - 1 }) in
      let guard = λ (peer : PeerInfo). env.carry_guard peer (length (env.serialize m)) in
      if p.ttl == 0
      then node
      else record node { conns = relay guard fd (from_proto p.sender).id m node.conns }

  unfoldable pub handle_publish : ℕ → Publish → Node → Node × List Delivery
  unfolding seen_recently deliver forward
  handle_publish fd p node =
      let (seen, node') = seen_recently p.message_id node in
      if length p.message_id == 0
      then (node, [])
      else (if seen then (node', []) else (forward fd p node', deliver p node'))

  unfoldable pub handle_frame : ℕ → Message → Node → Node × List Delivery
  unfolding on_handshake_observed self_info observe_others observe_other to_protos add_subscriber
      drop_subscriber handle_publish send from_proto
  handle_frame fd (ping sender nonce) node =
      let peer = from_proto sender in
      let node' = if peer.id == node.self_id then node else on_handshake_observed fd peer node in
      (send fd (pong (self_info node') nonce) node', [])
  handle_frame fd (pong sender nonce) node =
      let peer = from_proto sender in
      (if peer.id == node.self_id then node else on_handshake_observed fd peer node, [])
  handle_frame fd (find_node sender target) node =
      let node' = observe_other (from_proto sender) node in
      let peers = to_protos (closest target bucket_size node'.table) in
      if length target == node_id_bytes
      then (send fd (find_node_resp (self_info node') peers) node', [])
      else (node', [])
  handle_frame fd (find_node_resp sender peers) node =
      (observe_others peers (observe_other (from_proto sender) node), [])
  handle_frame fd (subscribe sender topic) node =
      let peer = from_proto sender in
      if peer.id == node.self_id
      then (node, [])
      else (observe_other peer (add_subscriber topic peer.id node), [])
  handle_frame fd (unsubscribe sender topic) node =
      (drop_subscriber topic (from_proto sender).id node, [])
  handle_frame fd (publish p) node = handle_publish fd p node
  handle_frame fd no_body node = (node, [])

unfoldable pub forget_id : Option Bytes → ℕ → List (Bytes × ℕ) → List (Bytes × ℕ)
forget_id none fd ids = ids
forget_id (some id) fd ids = elim (lookup id ids) [
  | none ↦ ids
  | some other ↦ if other == fd then erase id ids else ids
]

unfoldable pub close_conn : ℕ → Node → Node
unfolding forget_id
close_conn fd node = elim (lookup fd node.conns) [
  | none ↦ node
  | some c ↦
      let id = if c.peer_known then some c.peer.id else none in
      record node { id_to_fd = forget_id id fd node.id_to_fd; conns = erase fd node.conns }
]

-- A connection that was accepted or dialled: the node says hello.
unfoldable pub register_conn : ℕ → Bytes → Node → Node
unfolding send self_info
register_conn fd nonce node =
    let c : PeerConn = record { write_buf = []; peer = no_peer; peer_known = false } in
    send fd (ping (self_info node) nonce) (record node { conns = insert fd c node.conns })

-- `P2PNode::subscribe`, `unsubscribe` and `publish`.
unfoldable pub subscribe_topic : Bytes → Node → Node
unfolding send_to_all self_info
subscribe_topic topic node = record node {
  my_topics = set_insert topic node.my_topics;
  conns = send_to_all (subscribe (self_info node) topic) node.conns;
}

unfoldable pub unsubscribe_topic : Bytes → Node → Node
unfolding send_to_all self_info
unsubscribe_topic topic node = record node {
  my_topics = remove topic node.my_topics;
  conns = send_to_all (unsubscribe (self_info node) topic) node.conns;
}

unfoldable pub publish_topic : Bytes → Bytes → Bytes → ℕ → Node → Node
unfolding seen_recently send_to_all self_info
publish_topic mid topic payload ttl node =
    let p : Publish = record {
      sender = self_info node;
      topic = topic;
      message_id = mid;
      payload = payload;
      ttl = ttl;
    } in
    let node' = (seen_recently mid node).1 in
    record node' { conns = send_to_all (publish p) node'.conns }

unfoldable pub known_peer_count : Node → ℕ
known_peer_count node = size node.table.buckets
