-- ===== src/P2P/Gossip/Tests.antt =====
-- A node with two connections.
use fin_bit.Prelude.{ℕ, ◌+◌, ◌≡◌, refl, [], ◌∷◌, true, Bytes, replicate, arith, nat_eq, list_eq}
use fin_bit.Prelude.Dict.{lookup}
use fin_bit.Prelude.Collections.{contains}
use fin_bit.P2P.Gossip.{
  Node, PeerConn, Publish, WirePeer, Environment, publish, subscribe_topic, new_node, enqueue,
  relay, from_proto, seen_recently, forward, handle_publish,
}
use fin_bit.P2P.Gossip.Run.{publishes, subscribes, step}
use fin_bit.P2P.Gossip.Once as Once
use fin_bit.P2P.Gossip.Once.{run}
use fin_bit.P2P.Gossip.Relaying as Relaying
use fin_bit.P2P.Gossip.Relaying.{Hop, Hops, SameMessage, hop, none_yet, one_more, goes, next_hop}

abbrev env : Environment
env = record { serialize = λ m. []; carry_guard = λ peer size. true; listens = true }

abbrev me : Bytes
me = replicate 20 1

abbrev author : WirePeer
author = record { node_id = replicate 20 9; addr = [] }

abbrev news : Publish
news = record {
  sender = author;
  topic = 5 ∷ [];
  message_id = 7 ∷ 7 ∷ [];
  payload = 1 ∷ 2 ∷ [];
  ttl = 4;
}

handle_publish_once_example :
    handle_publish env 4
      (record news { ttl = 9 })
      (run env
        (publishes (8 ∷ []) (5 ∷ []) [] 4 ∷ [])
        (handle_publish env 3 news (run env (subscribes (5 ∷ []) ∷ []) (new_node me []))).0)
    ≡ (
      run env
          (publishes (8 ∷ []) (5 ∷ []) [] 4 ∷ [])
          (handle_publish env 3 news (run env (subscribes (5 ∷ []) ∷ []) (new_node me []))).0,
      [],
    )
unfolding contains step new_node subscribe_topic
handle_publish_once_example =
    Once.handle_publish_once env me [] (subscribes (5 ∷ []) ∷ [])
      (publishes (8 ∷ []) (5 ∷ []) [] 4 ∷ []) 3 4 news (record news { ttl = 9 }) refl refl
      (omega arith) refl

abbrev neighbour : PeerConn
neighbour = record {
  write_buf = [];
  peer = record { id = replicate 20 2; addr = []; pubkey = [] };
  peer_known = true;
}

abbrev node : Node
node = record {
  self_id = me;
  self_addr = [];
  table = record { self = me; buckets = [] };
  conns = (3, neighbour) ∷ (4, neighbour) ∷ [];
  id_to_fd = [];
  my_topics = [];
  topic_subs = [];
  seen_order = [];
  seen_set = [];
}

first-Hop : Hop env news (next_hop news)
unfolding lookup handle_publish forward relay enqueue seen_recently contains from_proto
first-Hop = hop 3 4 node neighbour (enqueue (publish (next_hop news)) neighbour) refl refl refl

Hops-bounded_example : (◌≡◌ {A = ℕ} 4 (3 + 1)) × SameMessage env news (next_hop news)
Hops-bounded_example = Relaying.Hops-bounded env 1 (one_more 0 first-Hop (none_yet (next_hop news)))
