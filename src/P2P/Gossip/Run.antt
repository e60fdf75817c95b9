-- ===== src/P2P/Gossip/Run.antt =====
-- core/src/p2p/gossip.cpp: what can happen to a node, and which of it is remembered.
use fin_bit.Prelude.{
  ℕ, ◌≡◌, refl, ◌∙◌, List, [], ◌∷◌, false, Bytes, ◌==◌, nat_eq, list_eq, length, if◌then◌else◌,
  Bool-cases, Option-cases, inl, inr,
}
use fin_bit.Prelude.Dict.{lookup}
use fin_bit.Prelude.Collections.{contains}
use fin_bit.P2P.Kademlia.{PeerInfo}
use fin_bit.P2P.Gossip.{
  Node, Message, Publish, WirePeer, Environment, Delivery, ping, pong, find_node, find_node_resp,
  subscribe, unsubscribe, publish, no_body, from_proto, send, send_topics, send_my_subscriptions,
  on_handshake_observed, observe_other, observe_others, drop_subscriber, forward, handle_publish,
  handle_frame, close_conn, register_conn, subscribe_topic, unsubscribe_topic, publish_topic,
}
use fin_bit.P2P.Gossip.Memory.{remembered, seen_recently-old, seen_recently-new}

pub data Event : Type 0 where
  frame : (fd : ℕ) → Message → Event
  connects : (fd : ℕ) (nonce : Bytes) → Event
  closes : (fd : ℕ) → Event
  subscribes unsubscribes : (topic : Bytes) → Event
  publishes : (mid topic payload : Bytes) (ttl : ℕ) → Event

-- How many ids an event can add to the memory.
abbrev pub message_weight : Message → ℕ
message_weight (publish p) = 1
message_weight other = 0

abbrev pub weight : Event → ℕ
weight (frame fd m) = message_weight m
weight (publishes mid topic payload ttl) = 1
weight other = 0

-- The memory is that of the first node.
pub record Keeps (n n' : Node) : Type 0 where
  pub same_order : n'.seen_order ≡ n.seen_order
  pub same_set : n'.seen_set ≡ n.seen_set

Keeps-self : (n : Node) → Keeps n n
Keeps-self n = record { same_order = refl; same_set = refl }

Keeps-then : {n n' n'' : Node} → Keeps n n' → Keeps n' n'' → Keeps n n''
Keeps-then k k' = record {
  same_order = k'.same_order ∙ k.same_order;
  same_set = k'.same_set ∙ k.same_set;
}

send-Keeps : (fd : ℕ) (m : Message) (n : Node) → Keeps n (send fd m n)
unfolding send
send-Keeps fd m n = record { same_order = refl; same_set = refl }

send_topics-Keeps :
    (fd : ℕ) (me : WirePeer) (topics : List Bytes) (n : Node) → Keeps n (send_topics fd me topics n)
unfolding send_topics
send_topics-Keeps fd me [] n = Keeps-self n
send_topics-Keeps fd me (t ∷ topics) n =
    Keeps-then (send-Keeps fd (subscribe me t) n)
      (send_topics-Keeps fd me topics (send fd (subscribe me t) n))

observe_other-Keeps : (peer : PeerInfo) (n : Node) → Keeps n (observe_other peer n)
unfolding observe_other
observe_other-Keeps peer n = elim (Bool-cases (peer.id == n.self_id)) [
  | inl own ↦ rw (own, observe_other) (Keeps-self n)
  | inr foreign ↦ rw (foreign, observe_other) (record { same_order = refl; same_set = refl })
]

observe_others-Keeps : (peers : List WirePeer) (n : Node) → Keeps n (observe_others peers n)
unfolding observe_others
observe_others-Keeps [] n = Keeps-self n
observe_others-Keeps (p ∷ peers) n =
    Keeps-then (observe_other-Keeps (from_proto p) n)
      (observe_others-Keeps peers (observe_other (from_proto p) n))

handshake-Keeps : (fd : ℕ) (peer : PeerInfo) (n : Node) → Keeps n (on_handshake_observed fd peer n)
unfolding on_handshake_observed send_my_subscriptions
handshake-Keeps fd peer n =
    Keeps-then (record { same_order = refl; same_set = refl })
      (send_topics-Keeps fd _ n.my_topics _)

-- `if (peer.id != self_id) on_handshake_observed(c, peer)`
greeted-Keeps :
    (fd : ℕ) (peer : PeerInfo) (n : Node)
    → Keeps n (if peer.id == n.self_id then n else on_handshake_observed fd peer n)
greeted-Keeps fd peer n = elim (Bool-cases (peer.id == n.self_id)) [
  | inl own ↦ rw own (Keeps-self n)
  | inr foreign ↦ rw foreign (handshake-Keeps fd peer n)
]

drop_subscriber-Keeps : (topic id : Bytes) (n : Node) → Keeps n (drop_subscriber topic id n)
unfolding drop_subscriber
drop_subscriber-Keeps topic id n = elim (Option-cases (lookup topic n.topic_subs)) [
  | inl missing ↦ rw (missing, drop_subscriber) (Keeps-self n)
  | inr (ids, found) ↦ rw (found, drop_subscriber) (record { same_order = refl; same_set = refl })
]

close_conn-Keeps : (fd : ℕ) (n : Node) → Keeps n (close_conn fd n)
unfolding close_conn
close_conn-Keeps fd n = elim (Option-cases (lookup fd n.conns)) [
  | inl missing ↦ rw (missing, close_conn) (Keeps-self n)
  | inr (c, found) ↦ rw (found, close_conn) (record { same_order = refl; same_set = refl })
]

module _ (env : Environment) where
  unfoldable pub step : Event → Node → Node × List Delivery
  step (frame fd m) n = handle_frame env fd m n
  step (connects fd nonce) n = (register_conn fd nonce n, [])
  step (closes fd) n = (close_conn fd n, [])
  step (subscribes topic) n = (subscribe_topic topic n, [])
  step (unsubscribes topic) n = (unsubscribe_topic topic n, [])
  step (publishes mid topic payload ttl) n = (publish_topic mid topic payload ttl n, [])

  pub forward-Keeps : (fd : ℕ) (p : Publish) (n : Node) → Keeps n (forward env fd p n)
  unfolding forward
  forward-Keeps fd p n = elim (Bool-cases (p.ttl == 0)) [
    | inl done ↦ rw (done, forward) (Keeps-self n)
    | inr more ↦ rw (more, forward) (record { same_order = refl; same_set = refl })
  ]

  -- An event of weight 0 leaves the memory as it is, one of weight 1 may remember an id that was not
  -- there.
  pub data Remembers (n n' : Node) (weight : ℕ) : Type 0 where
    keeps : Keeps n n' → Remembers n n' weight
    adds :
        (mid : Bytes)
        → contains mid n.seen_set ≡ false
        → Keeps (remembered mid n) n'
        → weight ≡ 1
        → Remembers n n' weight

  pub handle_publish-Remembers :
      (fd : ℕ) (p : Publish) (n : Node) → Remembers n (handle_publish env fd p n).0 1
  unfolding handle_publish
  handle_publish-Remembers fd p n = elim (Bool-cases (length p.message_id == 0)) [
    | inl empty ↦ rw (empty, handle_publish) (keeps (Keeps-self n))
    | inr named ↦ elim (Bool-cases (contains p.message_id n.seen_set)) [
      | inl old ↦
          rw (named, handle_publish)
            (rw (seen_recently-old p.message_id n old) (keeps (Keeps-self n)))
      | inr new ↦
          rw (named, handle_publish)
            (rw (seen_recently-new p.message_id n new)
              (adds p.message_id new (forward-Keeps fd p (remembered p.message_id n)) refl))
    ]
  ]

  handle_frame-Remembers :
      (fd : ℕ) (m : Message) (n : Node) → Remembers n (handle_frame env fd m n).0 (message_weight m)
  unfolding handle_frame
  handle_frame-Remembers fd (ping sender nonce) n =
      keeps (Keeps-then (greeted-Keeps fd (from_proto sender) n) (send-Keeps fd _ _))
  handle_frame-Remembers fd (pong sender nonce) n = keeps (greeted-Keeps fd (from_proto sender) n)
  handle_frame-Remembers fd (find_node sender target) n = elim (Bool-cases (length target == 20)) [
    | inl good ↦
        rw (good, handle_frame)
          (keeps (Keeps-then (observe_other-Keeps (from_proto sender) n) (send-Keeps fd _ _)))
    | inr bad ↦ rw (bad, handle_frame) (keeps (observe_other-Keeps (from_proto sender) n))
  ]
  handle_frame-Remembers fd (find_node_resp sender peers) n = keeps (
      Keeps-then (observe_other-Keeps (from_proto sender) n)
        (observe_others-Keeps peers (observe_other (from_proto sender) n)))
  handle_frame-Remembers fd (subscribe sender topic) n =
      elim (Bool-cases ((from_proto sender).id == n.self_id)) [
        | inl own ↦ rw (own, handle_frame) (keeps (Keeps-self n))
        | inr foreign ↦
            rw (foreign, handle_frame) (keeps (record { same_order = refl; same_set = refl }))
      ]
  handle_frame-Remembers fd (unsubscribe sender topic) n =
      keeps (drop_subscriber-Keeps topic (from_proto sender).id n)
  handle_frame-Remembers fd (publish p) n = handle_publish-Remembers fd p n
  handle_frame-Remembers fd no_body n = keeps (Keeps-self n)

  pub step-Remembers : (e : Event) (n : Node) → Remembers n (step e n).0 (weight e)
  unfolding step register_conn subscribe_topic unsubscribe_topic publish_topic
  step-Remembers (frame fd m) n = handle_frame-Remembers fd m n
  step-Remembers (connects fd nonce) n = keeps (record { same_order = refl; same_set = refl })
  step-Remembers (closes fd) n = keeps (close_conn-Keeps fd n)
  step-Remembers (subscribes topic) n = keeps (record { same_order = refl; same_set = refl })
  step-Remembers (unsubscribes topic) n = keeps (record { same_order = refl; same_set = refl })
  step-Remembers (publishes mid topic payload ttl) n = elim (Bool-cases (contains mid n.seen_set)) [
    | inl old ↦
        rw (seen_recently-old mid n old) (keeps (record { same_order = refl; same_set = refl }))
    | inr new ↦
        rw (seen_recently-new mid n new)
          (adds mid new (record { same_order = refl; same_set = refl }) refl)
  ]
