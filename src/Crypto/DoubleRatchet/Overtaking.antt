-- ===== src/Crypto/DoubleRatchet/Overtaking.antt =====
-- core/src/crypto/ratchet.cpp: messages of a chain that are overtaken by a later one.
use fin_bit.Prelude.{
  ℕ, zero, suc, ◌+◌, ◌≤◌, ◌<◌, ◌≡◌, none, some, true, Bytes, nat_eq, list_eq, pair_eq, length,
}
use fin_bit.Prelude.Dict.{lookup}
use fin_bit.Crypto.Sodium.{Sodium, IsSodium}
use fin_bit.Crypto.X25519.{X25519}
use fin_bit.Crypto.DoubleRatchet.{State, kdf_ck, skip_loop}
use fin_bit.Crypto.DoubleRatchet.Agreement.{spoken}
use fin_bit.Crypto.SkippedKeys.{emplace}

module _ (sodium : Sodium) where
  abbrev pub chain_after : ℕ → Bytes → Bytes
  chain_after zero ck = ck
  chain_after (suc n) ck = chain_after n (kdf_ck sodium ck).1

  -- The sender after `n` more messages.
  abbrev pub spoken_times : ℕ → State → State
  spoken_times zero s = s
  spoken_times (suc n) s = spoken_times n (spoken sodium s)

  record Sends (n : ℕ) (s s' : State) : Type 0 where
    on_chain : s'.cks ≡ chain_after n s.cks
    counted : s'.ns ≡ s.ns + n
    same_pub : s'.dhs_pub ≡ s.dhs_pub

  -- Nothing is cached of the current chain from the count on.
  abbrev pub IsBehind : State → Type 0
  IsBehind s = (i : ℕ) → s.nr ≤ i → lookup (s.dhr_pub, i) s.skipped ≡ none

  record Skips (n : ℕ) (s s' : State) : Type 0 where
    on_chain : s'.ckr ≡ chain_after n s.ckr
    counted : s'.nr ≡ s.nr + n
    cached :
        (i k : ℕ)
        → i < n
        → k ≡ s.nr + i
        → lookup (s.dhr_pub, k) s'.skipped ≡ some (kdf_ck sodium (chain_after i s.ckr)).0
    kept :
        (key : Bytes × ℕ) (mk : Bytes)
        → lookup key s.skipped ≡ some mk
        → lookup key s'.skipped ≡ some mk

  -- A round while the cache has room.
  abbrev passed : State → State
  passed s = record s {
    ckr = (kdf_ck sodium s.ckr).1;
    skipped = emplace (s.dhr_pub, s.nr) (kdf_ck sodium s.ckr).0 s.skipped;
    nr = s.nr + 1;
  }

module _ (sodium : Sodium) (h : IsSodium sodium) (x : X25519) where
  -- The receiver is at the sender's place in the chain.
  pub record IsAt (s t : State) : Type 0 where
    pub sized : length s.dhs_pub ≡ 32
    pub has_dhr : t.have_dhr ≡ true
    pub has_ckr : t.have_ckr ≡ true
    pub same_key : t.dhr_pub ≡ s.dhs_pub
    pub same_chain : t.ckr ≡ s.cks
    pub same_count : t.nr ≡ s.ns
    pub behind : IsBehind sodium t

  abbrev skipped_to : ℕ → State → State
  skipped_to n t = skip_loop sodium n (t.nr + n) t
