-- ===== src/Crypto/DoubleRatchet/Conversation.antt =====
-- core/src/crypto/ratchet.cpp: a conversation, in which each message arrives before the next one
-- is sent.
use fin_bit.Prelude.{
  ◌≡◌, refl, ap, List, [], ◌∷◌, map, Option, some, Bool, true, false, Bytes, ◌==◌, ==_iff, nat_eq,
  list_eq, arith, Bool-cases, ◌⊎◌, inl, inr,
}
use fin_bit.Prelude.Collections.{contains}
use fin_bit.Prelude.Result.{Result, ok, err}
use fin_bit.Crypto.Sodium.{Sodium, IsSodium}
use fin_bit.Crypto.X25519.{X25519, IsX25519}
use fin_bit.Crypto.DoubleRatchet.{
  State, new_state, RatchetError, encrypt, decrypt, init_alice, init_bob, x25519_keypair,
}
use fin_bit.Crypto.DoubleRatchet.Agreement.{spoken, heard, encrypt-said, derive_total, Leads}
use fin_bit.Crypto.DoubleRatchet.Exchange.{
  turned, follower_speaks, follower_speaks-Leads, leader_speaks, leader_speaks-Leads,
}

-- One message; `fresh` is the private key that the receiver draws if it needs one.
pub record Line : Type 0 where
  pub by_alice : Bool
  pub plaintext : Bytes
  pub outer : Bytes
  pub fresh : Bytes

abbrev pub Received : Type 0
Received = Result RatchetError (Option Bytes)

-- What the receiver gets of each message.
abbrev pub as_sent : Line → Received
as_sent line = ok (some line.plaintext)

module _ (sodium : Sodium) (x : X25519) where
  -- The receiver's result, and the states of the sender and the receiver.
  unfoldable pub deliver : Line → State → State → Received × State × State
  deliver line sender receiver = elim (encrypt sodium line.plaintext line.outer sender) [
    | err e ↦ (err e, sender, receiver)
    | ok sent ↦
        let r = decrypt sodium x line.fresh (some sent.0) line.outer receiver in (r.0, sent.1, r.1)
  ]

  unfoldable pub talk : List Line → State → State → List Received
  unfolding deliver
  talk [] alice bob = []
  talk (line ∷ rest) alice bob = elim line.by_alice [
    | true ↦ let r = deliver line alice bob in r.0 ∷ talk rest r.1 r.2
    | false ↦ let r = deliver line bob alice in r.0 ∷ talk rest r.2 r.1
  ]

  -- Each key that is drawn has a public key, which is none of those before.
  abbrev pub AreFresh : List Bytes → List Line → Type 0
  AreFresh known [] = Unit
  AreFresh known (line ∷ rest) =
      (public : Bytes) × (x.base line.fresh ≡ some public)
      × (contains public known ≡ false)
      × AreFresh (public ∷ known) rest

abbrev Knows : List Bytes → State → State → Type 0
Knows known l f = (contains l.dhs_pub known ≡ true) × (contains f.dhs_pub known ≡ true)

ne_of_contains :
    (a b : Bytes) (known : List Bytes)
    → contains a known ≡ false
    → contains b known ≡ true
    → (a == b) ≡ false
ne_of_contains a b known no_a has_b = elim (Bool-cases (a == b)) [
  | inl same ↦ let e = (==_iff a b).0 same in cc (ap (λ (k : Bytes). contains k known) e)
  | inr other ↦ other
]

contains-cons :
    (a b : Bytes) (known : List Bytes) → contains a known ≡ true → contains a (b ∷ known) ≡ true
unfolding contains
contains-cons a b known has_a = ground arith

contains_head : (a : Bytes) (known : List Bytes) → contains a (a ∷ known) ≡ true
unfolding contains
contains_head a known = ground (arith, ==_iff a a)

-- The state that `init_alice` returns.
abbrev begun : Bytes → Bytes → Bytes → Bytes × Bytes → State
begun fresh public peer_dh_pub keys = record new_state {
  dhs_pub = public;
  dhs_priv = fresh;
  dhr_pub = peer_dh_pub;
  have_dhr = true;
  rk = keys.0;
  cks = keys.1;
  have_cks = true;
}

contains_second : (a b : Bytes) → contains b (a ∷ b ∷ []) ≡ true
unfolding contains
contains_second a b = ground (arith, ==_iff b b)

module _ (sodium : Sodium) (h : IsSodium sodium) (x : X25519) (hx : IsX25519 x) where
  -- What holds between two messages, with either side in the lead.
  record Ready (known : List Bytes) (l f : State) : Type 0 where
    leads : Leads sodium x hx l f
    follower_sends : f.have_cks ≡ true
    knows : Knows known l f

  record Delivered (known : List Bytes) (line : Line) (sender receiver : State) : Type 0 where
    sender' : State
    receiver' : State
    done : deliver sodium x line sender receiver ≡ (as_sent line, sender', receiver')
    ready : Ready known sender' receiver' ⊎ Ready known receiver' sender'

  leader_delivers :
      (known : List Bytes) (line : Line) (public : Bytes) (l f : State)
      → Leads sodium x hx l f
      → Knows known l f
      → x.base line.fresh ≡ some public
      → contains public known ≡ false
      → Delivered (public ∷ known) line l f
  unfolding deliver
  leader_delivers known line public l f a (has_l, has_f) b new =
      let (sending, d, other) =
        derive_total sodium x hx l.rk line.fresh l.dhs_priv b a.leader_pair in
      record {
        sender' = spoken sodium l;
        receiver' = turned sodium h x hx line.fresh public sending l f;
        done =
            rw (encrypt-said sodium line.plaintext line.outer l a.leader_sends, deliver)
              (rw
                (leader_speaks sodium h x hx line.fresh public line.plaintext line.outer sending l f
                  a b d)
                refl);
        ready = inr (record {
          leads =
              leader_speaks-Leads sodium h x hx line.fresh public sending l f a b d
                (ne_of_contains public f.dhs_pub known new has_f);
          follower_sends = a.leader_sends;
          knows = (contains_head public known, contains-cons l.dhs_pub public known has_l);
        });
      }

  follower_delivers :
      (known : List Bytes) (line : Line) (public : Bytes) (l f : State)
      → Ready known l f
      → Delivered (public ∷ known) line f l
  unfolding deliver
  follower_delivers known line public l f r = record {
    sender' = spoken sodium f;
    receiver' = heard sodium l;
    done =
        rw (encrypt-said sodium line.plaintext line.outer f r.follower_sends, deliver)
          (rw
            (follower_speaks sodium h x hx line.fresh line.plaintext line.outer l f r.leads
              r.follower_sends)
            refl);
    ready = inr (record {
      leads = follower_speaks-Leads sodium h x hx l f r.leads r.follower_sends;
      follower_sends = r.follower_sends;
      knows = (
        contains-cons l.dhs_pub public known r.knows.0,
        contains-cons f.dhs_pub public known r.knows.1,
      );
    });
  }

  delivers :
      (known : List Bytes) (line : Line) (public : Bytes) (s t : State)
      → Ready known s t ⊎ Ready known t s
      → x.base line.fresh ≡ some public
      → contains public known ≡ false
      → Delivered (public ∷ known) line s t
  delivers known line public s t (inl r) b new =
      leader_delivers known line public s t r.leads r.knows b new
  delivers known line public s t (inr r) b new = follower_delivers known line public t s r

  swap :
      {known : List Bytes} {s t : State}
      → Ready known s t ⊎ Ready known t s
      → Ready known t s ⊎ Ready known s t
  swap (inl r) = inr r
  swap (inr r) = inl r

  talk-Ready :
      (known : List Bytes) (lines : List Line) (alice bob : State)
      → Ready known alice bob ⊎ Ready known bob alice
      → AreFresh sodium x known lines
      → talk sodium x lines alice bob ≡ map as_sent lines
  unfolding talk
  talk-Ready known [] alice bob r fresh = refl
  talk-Ready known (line ∷ rest) alice bob r (public, b, new, fresh) =
      elim (Bool-cases line.by_alice) [
        | inl yes_alice ↦
            let d = delivers known line public alice bob r b new in
            rw (yes_alice, talk)
              (rw d.done (
                ap (◌∷◌ (as_sent line))
                  (talk-Ready (public ∷ known) rest d.sender' d.receiver' d.ready fresh)))
        | inr no_bob ↦
            let d = delivers known line public bob alice (swap r) b new in
            rw (no_bob, talk)
              (rw d.done (
                ap (◌∷◌ (as_sent line))
                  (talk-Ready (public ∷ known) rest d.receiver' d.sender' (swap d.ready) fresh)))
      ]

  init-Leads :
      (secret ka kb a_pub b_pub : Bytes)
      → x.base ka ≡ some a_pub
      → x.base kb ≡ some b_pub
      → (alice : State) × (init_alice sodium x ka secret b_pub ≡ ok alice)
        × Leads sodium x hx alice (init_bob secret kb b_pub)
        × (alice.dhs_pub ≡ a_pub)
  unfolding init_alice init_bob x25519_keypair
  init-Leads secret ka kb a_pub b_pub ha hb =
      let (keys, d, other) = derive_total sodium x hx secret ka kb ha hb in
      (
        begun ka a_pub b_pub keys,
        rw (ha, init_alice, x25519_keypair) (rw d refl),
        record {
          leader_pair = ha;
          follower_pair = hb;
          leader_knows = refl;
          leader_has_dhr = refl;
          unknown = refl;
          derived = d;
          leader_sends = refl;
          none_sent = refl;
          receives = refl;
          same_chain = λ e. cc;
          same_count = refl;
          all_received = λ e. cc;
          leader_skipped = refl;
          follower_skipped = refl;
        },
        refl,
      )

  -- Two users who share a secret, of whom one has the prekey of the other and speaks first, read
  -- every message as it was sent, whoever sends the next one, if each message arrives before the
  -- next one is sent and all keys that are drawn have different public keys.
  pub talk-init_alice :
      (secret ka kb a_pub b_pub : Bytes) (first : Line) (rest : List Line)
      → x.base ka ≡ some a_pub
      → x.base kb ≡ some b_pub
      → first.by_alice ≡ true
      → AreFresh sodium x (a_pub ∷ b_pub ∷ []) (first ∷ rest)
      → (alice : State) × (init_alice sodium x ka secret b_pub ≡ ok alice)
        × (talk sodium x (first ∷ rest) alice (init_bob secret kb b_pub)
            ≡ map as_sent (first ∷ rest))
  unfolding talk init_bob
  talk-init_alice secret ka kb a_pub b_pub first rest ha hb starts (public, b, new, fresh) =
      let (alice, e, leads, is_a) = init-Leads secret ka kb a_pub b_pub ha hb in
      let bob = init_bob secret kb b_pub in
      let known = a_pub ∷ b_pub ∷ [] in
      let has_a : contains alice.dhs_pub known ≡ true =
        rw is_a (contains_head a_pub (b_pub ∷ [])) in
      let has_b : contains b_pub known ≡ true = contains_second a_pub b_pub in
      let d = leader_delivers known first public alice bob leads (has_a, has_b) b new in
      (
        alice,
        e,
        rw (starts, talk)
            (rw d.done (
              ap (◌∷◌ (as_sent first))
                (talk-Ready (public ∷ known) rest d.sender' d.receiver' d.ready fresh))),
      )
