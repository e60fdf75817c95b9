-- ===== src/P2P/Gossip/Relaying.antt =====
-- core/src/p2p/gossip.cpp: to whom a message goes on, and how far.
use fin_bit.Prelude.{
  ℕ, zero, suc, ◌+◌, ◌-◌, ◌<◌, ◌≡◌, refl, sym, ap, ◌∙◌, List, [], ◌∷◌, ◌++◌, Option, none, some,
  Bool, false, not, ◌&&◌, Bytes, ◌==◌, ==_iff, nat_eq, list_eq, length, length-append,
  if◌then◌else◌, arith, Bool-cases, inl, inr,
}
use fin_bit.Prelude.Dict.{lookup}
use fin_bit.Prelude.Collections.{contains}
use fin_bit.P2P.Kademlia.{PeerInfo}
use fin_bit.P2P.Gossip.{
  Node, PeerConn, Conns, Message, Publish, Environment, publish, from_proto, enqueue, relay,
  forward, handle_publish,
}

takes : (PeerInfo → Bool) → ℕ → Bytes → ℕ → PeerConn → Bool
takes guard fd origin other c =
    not (other == fd) && c.peer_known && not (c.peer.id == origin) && guard c.peer

lookup-relay :
    (guard : PeerInfo → Bool) (fd : ℕ) (origin : Bytes) (m : Message) (other : ℕ) (c : PeerConn)
    (conns : Conns)
    → lookup other conns ≡ some c
    → lookup other (relay guard fd origin m conns)
      ≡ some (if takes guard fd origin other c then enqueue m c else c)
unfolding lookup relay takes
lookup-relay guard fd origin m other c [] found = absurd (ground arith)
lookup-relay guard fd origin m other c ((k, d) ∷ conns) found = elim (Bool-cases (k == other)) [
  | inl here ↦
      let e = (==_iff k other).0 here in
      let same : d ≡ c = ground arith in rw here (rw e (rw same refl))
  | inr there ↦ rw there (lookup-relay guard fd origin m other c conns (ground arith))
]

-- The message for the next hop.
abbrev pub next_hop : Publish → Publish
next_hop p = record p { ttl = p.ttl - 1 }

some-injective : {m m' : Message} → some m ≡ some m' → m ≡ m'
some-injective e = cc

ttl_pos : (p : Publish) → (p.ttl == 0) ≡ false → 0 < p.ttl
ttl_pos p alive = ground arith

module _ (env : Environment) where
  -- Whether a node passes a message on to a connection.
  abbrev pub goes : ℕ → ℕ → Publish → PeerConn → Node → Bool
  goes fd other p c n =
      not (length p.message_id == 0)
      && not (contains p.message_id n.seen_set)
      && not (p.ttl == 0)
      && not (other == fd)
      && c.peer_known
      && not (c.peer.id == (from_proto p.sender).id)
      && env.carry_guard c.peer (length (env.serialize (publish (next_hop p))))

  -- A message is put on the buffer of another connection, with its time to live reduced by one, exactly
  -- if it has an id that was not seen, may go on, and the connection is not the one it came from and
  -- belongs to a known peer other than the sender whom the guard admits. Nothing else changes there.
  pub handle_publish-goes :
      (fd other : ℕ) (p : Publish) (c : PeerConn) (n : Node)
      → lookup other n.conns ≡ some c
      → lookup other (handle_publish env fd p n).0.conns
        ≡ some (if goes fd other p c n then enqueue (publish (next_hop p)) c else c)
  unfolding handle_publish forward takes
  handle_publish-goes fd other p c n found = elim (Bool-cases (length p.message_id == 0)) [
    | inl empty ↦ rw (empty, handle_publish) found
    | inr named ↦ elim (Bool-cases (contains p.message_id n.seen_set)) [
      | inl old ↦ rw (named, handle_publish) (rw old found)
      | inr new ↦ elim (Bool-cases (p.ttl == 0)) [
        | inl last ↦ rw (named, handle_publish) (rw new (rw (last, forward) found))
        | inr more ↦
            rw (named, handle_publish)
              (rw new (
                rw (more, forward)
                  (lookup-relay
                    (λ peer. env.carry_guard peer (length (env.serialize (publish (next_hop p)))))
                    fd (from_proto p.sender).id (publish (next_hop p)) other c n.conns found)))
      ]
    ]
  ]

  -- One hop: the node puts a message on a buffer.
  pub data Hop (p q : Publish) : Type 0 where
    hop :
        (fd other : ℕ) (n : Node) (c c' : PeerConn)
        → lookup other n.conns ≡ some c
        → lookup other (handle_publish env fd p n).0.conns ≡ some c'
        → c'.write_buf ≡ c.write_buf ++ publish q ∷ []
        → Hop p q

  pub data Hops : ℕ → Publish → Publish → Type 0 where
    none_yet : (p : Publish) → Hops zero p p
    one_more : (k : ℕ) {p q r : Publish} → Hop p q → Hops k q r → Hops (suc k) p r

  -- Only the time to live differs.
  pub record SameMessage (p q : Publish) : Type 0 where
    pub same_sender : q.sender ≡ p.sender
    pub same_topic : q.topic ≡ p.topic
    pub same_id : q.message_id ≡ p.message_id
    pub same_payload : q.payload ≡ p.payload

  publish-injective : (p q : Publish) → publish p ≡ publish q → p ≡ q
  publish-injective p q e = cc

  last_of : List Message → Option Message
  last_of [] = none
  last_of (m ∷ []) = some m
  last_of (m ∷ m' ∷ ms) = last_of (m' ∷ ms)

  last_of-snoc : (ms : List Message) (m : Message) → last_of (ms ++ m ∷ []) ≡ some m
  unfolding last_of
  last_of-snoc [] m = refl
  last_of-snoc (x ∷ []) m = refl
  last_of-snoc (x ∷ y ∷ ms) m = last_of-snoc (y ∷ ms) m

  Hop-next : {p q : Publish} → Hop p q → (p.ttl ≡ q.ttl + 1) × SameMessage p q
  unfolding enqueue
  Hop-next {p = p} {q = q} (hop fd other n c c' before after added) =
      let put = sym after ∙ handle_publish-goes fd other p c n before in
      elim (Bool-cases (goes fd other p c n)) [
        | inr stays ↦
            let same : c' ≡ c = ground arith in
            absurd (
              omega (
                arith,
                ap (λ (k : PeerConn). length k.write_buf) same,
                ap (λ (ms : List Message). length ms) added,
                length-append c.write_buf (publish q ∷ []),
              ))
        | inl moves ↦
            let same : c' ≡ enqueue (publish (next_hop p)) c = ground arith in
            let ends =
              sym (last_of-snoc c.write_buf (publish (next_hop p)))
              ∙ ap (λ (k : PeerConn). last_of k.write_buf) (sym same)
              ∙ ap last_of added
              ∙ last_of-snoc c.write_buf (publish q) in
            let is_next = publish-injective (next_hop p) q (some-injective ends) in
            let alive : (p.ttl == 0) ≡ false = ground arith in
            (
              omega (arith, ap (λ (k : Publish). k.ttl) is_next, ttl_pos p alive),
              record {
                same_sender = sym (ap (λ (k : Publish). k.sender) is_next);
                same_topic = sym (ap (λ (k : Publish). k.topic) is_next);
                same_id = sym (ap (λ (k : Publish). k.message_id) is_next);
                same_payload = sym (ap (λ (k : Publish). k.payload) is_next);
              },
            )
      ]

  -- After `k` hops, over whatever nodes in whatever states, a message is the one that was sent, with
  -- its time to live reduced by `k`; so it makes at most as many hops as that was at first.
  pub Hops-bounded : (k : ℕ) {p q : Publish} → Hops k p q → (p.ttl ≡ q.ttl + k) × SameMessage p q
  Hops-bounded zero (none_yet p) = (
    omega arith,
    record { same_sender = refl; same_topic = refl; same_id = refl; same_payload = refl },
  )
  Hops-bounded (suc k) (one_more _ h rest) =
      let (less, same) = Hop-next h in
      let (later, same') = Hops-bounded k rest in
      (
        omega (arith, less, later),
        record {
          same_sender = same'.same_sender ∙ same.same_sender;
          same_topic = same'.same_topic ∙ same.same_topic;
          same_id = same'.same_id ∙ same.same_id;
          same_payload = same'.same_payload ∙ same.same_payload;
        },
      )
