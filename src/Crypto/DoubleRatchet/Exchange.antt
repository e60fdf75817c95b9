-- ===== src/Crypto/DoubleRatchet/Exchange.antt =====
-- core/src/crypto/ratchet.cpp: one message, sent by either side and received by the other.
use fin_bit.Prelude.{
  ◌≡◌, refl, sym, ap, ◌∙◌, [], none, some, true, false, not, ◌||◌, Bytes, ◌==◌, ==_iff, nat_eq,
  list_eq, pair_eq, length, arith, eqb,
}
use fin_bit.Prelude.Dict.{lookup}
use fin_bit.Prelude.Result.{ok}
use fin_bit.Crypto.Sodium.{Sodium, IsSodium}
use fin_bit.Crypto.X25519.{X25519, IsX25519}
use fin_bit.Crypto.DoubleRatchet.{
  Message, State, derive, or_refuse, or_throw, decrypt_in_chain, decrypt_new, decrypt_message,
  decrypt,
}
use fin_bit.Crypto.DoubleRatchet.Agreement.{
  said, spoken, heard, skip_none, open_next-said, derive_total, ratcheted, dh_ratchet-ratcheted,
  Leads,
}

module _ (sodium : Sodium) (h : IsSodium sodium) (x : X25519) where
  pub decrypt_in_chain-said :
      (plaintext outer : Bytes) (s t : State)
      → t.ckr ≡ s.cks
      → s.ns ≡ t.nr
      → decrypt_in_chain sodium x (said sodium plaintext outer s) outer t
        ≡ (ok (some plaintext), heard sodium t)
  unfolding decrypt_in_chain or_refuse
  decrypt_in_chain-said plaintext outer s t same count =
      rw (skip_none sodium s.ns t (λ _. count), decrypt_in_chain, or_refuse)
        (open_next-said sodium h plaintext outer s t same)

module _ (sodium : Sodium) (x : X25519) where
  -- With an empty cache only the new message counts.
  pub decrypt-fresh :
      (fresh outer : Bytes) (m : Message) (s : State)
      → length m.header_dh_pub ≡ 32
      → s.skipped ≡ []
      → decrypt sodium x fresh (some m) outer s ≡ decrypt_new sodium x fresh m outer s
  unfolding decrypt decrypt_message lookup
  decrypt-fresh fresh outer m s size empty =
      let e : eqb (length m.header_dh_pub) 32 ≡ true = ground arith in
      let missing : lookup (m.header_dh_pub, m.n) s.skipped ≡ none =
        ap (lookup (m.header_dh_pub, m.n)) empty in
      rw (e, decrypt) (rw (missing, decrypt_message) refl)

module _ (sodium : Sodium) (h : IsSodium sodium) (x : X25519) (hx : IsX25519 x) where
  -- The follower speaks on the chain that the leader receives.
  pub follower_speaks :
      (fresh plaintext outer : Bytes) (l f : State)
      → Leads sodium x hx l f
      → f.have_cks ≡ true
      → decrypt sodium x fresh (some (said sodium plaintext outer f)) outer l
        ≡ (ok (some plaintext), heard sodium l)
  unfolding decrypt_new
  follower_speaks fresh plaintext outer l f a speaks =
      let known : (not l.have_dhr || not (f.dhs_pub == l.dhr_pub)) ≡ false =
        ground (arith, a.leader_has_dhr, ==_iff f.dhs_pub l.dhr_pub, a.leader_knows) in
      decrypt-fresh sodium x fresh outer (said sodium plaintext outer f) l
        (hx.length-base f.dhs_priv f.dhs_pub a.follower_pair) a.leader_skipped
      ∙ rw (known, decrypt_new)
          (decrypt_in_chain-said sodium h x plaintext outer f l (a.same_chain speaks)
            (sym a.same_count))

  pub follower_speaks-Leads :
      (l f : State)
      → Leads sodium x hx l f
      → f.have_cks ≡ true
      → Leads sodium x hx (heard sodium l) (spoken sodium f)
  follower_speaks-Leads l f a speaks = record {
    leader_pair = a.leader_pair;
    follower_pair = a.follower_pair;
    leader_knows = a.leader_knows;
    leader_has_dhr = a.leader_has_dhr;
    unknown = a.unknown;
    derived = a.derived;
    leader_sends = a.leader_sends;
    none_sent = a.none_sent;
    receives = a.receives;
    same_chain = λ _. rw (a.same_chain speaks) refl;
    same_count = rw a.same_count refl;
    all_received = a.all_received;
    leader_skipped = a.leader_skipped;
    follower_skipped = a.follower_skipped;
  }

  -- The state of the follower after the leader's first message: it leads.
  abbrev pub turned : Bytes → Bytes → Bytes × Bytes → State → State → State
  turned fresh public sending l f =
      heard sodium (ratcheted sodium x hx fresh public l.dhs_pub (l.rk, l.cks) sending f)

  pub leader_speaks :
      (fresh public plaintext outer : Bytes) (sending : Bytes × Bytes) (l f : State)
      → Leads sodium x hx l f
      → x.base fresh ≡ some public
      → derive sodium x l.rk fresh l.dhs_pub ≡ ok sending
      → decrypt sodium x fresh (some (said sodium plaintext outer l)) outer f
        ≡ (ok (some plaintext), turned fresh public sending l f)
  unfolding decrypt_new or_refuse or_throw
  leader_speaks fresh public plaintext outer sending l f a b d =
      let (keys, one, other) =
        derive_total sodium x hx f.rk l.dhs_priv f.dhs_priv a.leader_pair a.follower_pair in
      let mine : derive sodium x f.rk f.dhs_priv l.dhs_pub ≡ ok (l.rk, l.cks) =
        other ∙ sym one ∙ a.derived in
      decrypt-fresh sodium x fresh outer (said sodium plaintext outer l) f
        (hx.length-base l.dhs_priv l.dhs_pub a.leader_pair) a.follower_skipped
      ∙ rw (a.unknown, decrypt_new)
          (rw (skip_none sodium l.pn f a.all_received, or_refuse)
            (rw
              (
                dh_ratchet-ratcheted sodium x hx fresh public l.dhs_pub (l.rk, l.cks) sending f mine
                    b d,
                or_throw,
              )
              (decrypt_in_chain-said sodium h x plaintext outer l
                (ratcheted sodium x hx fresh public l.dhs_pub (l.rk, l.cks) sending f) refl
                a.none_sent)))

  pub leader_speaks-Leads :
      (fresh public : Bytes) (sending : Bytes × Bytes) (l f : State)
      → Leads sodium x hx l f
      → x.base fresh ≡ some public
      → derive sodium x l.rk fresh l.dhs_pub ≡ ok sending
      → (public == f.dhs_pub) ≡ false
      → Leads sodium x hx (turned fresh public sending l f) (spoken sodium l)
  leader_speaks-Leads fresh public sending l f a b d new = record {
    leader_pair = b;
    follower_pair = a.leader_pair;
    leader_knows = refl;
    leader_has_dhr = refl;
    unknown = ground (arith, a.leader_knows, new);
    derived = d;
    leader_sends = refl;
    none_sent = refl;
    receives = sym a.leader_sends;
    same_chain = λ _. refl;
    same_count = rw a.none_sent refl;
    all_received = λ _. rw a.same_count refl;
    leader_skipped = a.follower_skipped;
    follower_skipped = a.leader_skipped;
  }
