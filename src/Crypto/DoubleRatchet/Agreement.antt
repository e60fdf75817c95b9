-- ===== src/Crypto/DoubleRatchet/Agreement.antt =====
-- core/src/crypto/ratchet.cpp: two sessions that agree. After each message one of them leads: it
-- has drawn a key pair that the other does not know yet.
use fin_bit.Prelude.{
  ℕ, ◌+◌, ◌%◌, ◌^◌, ◌≡◌, refl, [], some, true, not, ◌||◌, Bytes, ◌==◌, nat_eq, list_eq, arith,
  Bool-cases, inl, inr,
}
use fin_bit.Prelude.Result.{ok}
use fin_bit.Crypto.Sodium.{Sodium, IsSodium}
use fin_bit.Crypto.X25519.{X25519, IsX25519}
use fin_bit.Crypto.Aead.{xchacha20_encrypt, xchacha20_decrypt-xchacha20_encrypt}
use fin_bit.Crypto.Hkdf.{hkdf_expand}
use fin_bit.Crypto.DoubleRatchet.{
  Message, State, compose_aad, zero_nonce, kdf_rk, kdf_ck, skip_message_keys, skip_loop, open_with,
  encrypt, open_next, x25519_keypair, x25519_dh, derive, renew, dh_ratchet,
}

module _ (sodium : Sodium) where
  -- What `encrypt` sends, and the state it leaves.
  abbrev pub said : Bytes → Bytes → State → Message
  said plaintext outer s = record {
    header_dh_pub = s.dhs_pub;
    pn = s.pn;
    n = s.ns;
    ciphertext =
        xchacha20_encrypt sodium (kdf_ck sodium s.cks).0 zero_nonce plaintext
          (compose_aad s.dhs_pub s.pn s.ns outer);
  }

  abbrev pub spoken : State → State
  spoken s = record s { cks = (kdf_ck sodium s.cks).1; ns = (s.ns + 1) % 2 ^ 32 }

  -- The state of the receiver of the next message of its chain.
  abbrev pub heard : State → State
  heard s = record s { ckr = (kdf_ck sodium s.ckr).1; nr = (s.nr + 1) % 2 ^ 32 }

  pub encrypt-said :
      (plaintext outer : Bytes) (s : State)
      → s.have_cks ≡ true
      → encrypt sodium plaintext outer s ≡ ok (said plaintext outer s, spoken s)
  unfolding encrypt
  encrypt-said plaintext outer s h = rw h refl

  kdf_rk-eq-ok : (rk dh : Bytes) → (keys : Bytes × Bytes) × (kdf_rk sodium rk dh ≡ ok keys)
  unfolding kdf_rk hkdf_expand
  kdf_rk-eq-ok rk dh = (_, refl)

  -- Nothing is passed over where the count is right, or where there is no chain.
  pub skip_none :
      (until : ℕ) (s : State)
      → (s.have_ckr ≡ true → until ≡ s.nr)
      → skip_message_keys sodium until s ≡ (ok tt, s)
  unfolding skip_message_keys skip_loop
  skip_none until s h = elim (Bool-cases s.have_ckr) [
    | inr missing ↦ rw missing refl
    | inl there ↦ let e = h there in ground arith
  ]

module _ (sodium : Sodium) (h : IsSodium sodium) where
  -- A message opens with the key it was sealed with.
  pub open_next-said :
      (plaintext outer : Bytes) (s t : State)
      → t.ckr ≡ s.cks
      → open_next sodium (said sodium plaintext outer s) outer t
        ≡ (ok (some plaintext), heard sodium t)
  unfolding open_next open_with
  open_next-said plaintext outer s t e = rw e (
      rw
        (xchacha20_decrypt-xchacha20_encrypt sodium h (kdf_ck sodium s.cks).0 zero_nonce plaintext
          (compose_aad s.dhs_pub s.pn s.ns outer))
        refl)

module _ (sodium : Sodium) (x : X25519) (hx : IsX25519 x) where
  pub derive_total :
      (rk a b : Bytes) {a_pub b_pub : Bytes}
      → x.base a ≡ some a_pub
      → x.base b ≡ some b_pub
      → (keys : Bytes × Bytes) × (derive sodium x rk a b_pub ≡ ok keys)
        × (derive sodium x rk b a_pub ≡ ok keys)
  unfolding derive x25519_dh
  derive_total rk a b ha hb =
      let (dh, e, e') = hx.agree a b ha hb in
      let (keys, k) = kdf_rk-eq-ok sodium rk dh in
      (keys, rw (e, derive, x25519_dh) k, rw (e', derive, x25519_dh) k)

  -- The state that a DH step leaves where the keys are in order.
  abbrev pub ratcheted : Bytes → Bytes → Bytes → Bytes × Bytes → Bytes × Bytes → State → State
  ratcheted fresh public header_dh_pub received sending s = record s {
    pn = s.ns;
    ns = 0;
    nr = 0;
    dhr_pub = header_dh_pub;
    have_dhr = true;
    dhs_pub = public;
    dhs_priv = fresh;
    rk = sending.0;
    ckr = received.1;
    have_ckr = true;
    cks = sending.1;
    have_cks = true;
  }

  pub dh_ratchet-ratcheted :
      (fresh public header_dh_pub : Bytes) (received sending : Bytes × Bytes) (s : State)
      → derive sodium x s.rk s.dhs_priv header_dh_pub ≡ ok received
      → x.base fresh ≡ some public
      → derive sodium x received.0 fresh header_dh_pub ≡ ok sending
      → dh_ratchet sodium x fresh header_dh_pub s
        ≡ (ok tt, ratcheted fresh public header_dh_pub received sending s)
  unfolding dh_ratchet renew x25519_keypair
  dh_ratchet-ratcheted fresh public header_dh_pub received sending s e b e' =
      rw (e, dh_ratchet) (rw (b, renew) (rw (e', renew) refl))

  -- `l` leads and `f` follows.
  pub record Leads (l f : State) : Type 0 where
    pub leader_pair : x.base l.dhs_priv ≡ some l.dhs_pub
    pub follower_pair : x.base f.dhs_priv ≡ some f.dhs_pub
    pub leader_knows : l.dhr_pub ≡ f.dhs_pub
    pub leader_has_dhr : l.have_dhr ≡ true
    pub unknown : (not f.have_dhr || not (l.dhs_pub == f.dhr_pub)) ≡ true
    pub derived : derive sodium x f.rk l.dhs_priv f.dhs_pub ≡ ok (l.rk, l.cks)
    pub leader_sends : l.have_cks ≡ true
    pub none_sent : l.ns ≡ 0
    pub receives : l.have_ckr ≡ f.have_cks
    pub same_chain : f.have_cks ≡ true → l.ckr ≡ f.cks
    pub same_count : l.nr ≡ f.ns
    pub all_received : f.have_ckr ≡ true → l.pn ≡ f.nr
    pub leader_skipped : l.skipped ≡ []
    pub follower_skipped : f.skipped ≡ []
