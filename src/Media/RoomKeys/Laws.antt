-- ===== src/Media/RoomKeys/Laws.antt =====
-- The registry against a description without a cache.
use fin_bit.Prelude.{
  ℕ, ◌+◌, ◌≡◌, ◌<◌, refl, [], ◌∷◌, Option, none, some, true, false, ◌&&◌, ◌||◌, Bytes, ==_iff,
  nat_eq, list_eq, pair_eq, leb, ltb, eqb, if◌then◌else◌, take, ◌++◌, be32, arith, Bool-cases, inl,
  inr, ◌⊎◌,
}
use fin_bit.Prelude.Dict.{lookup}
use fin_bit.Prelude.Result.{ok}
use fin_bit.Crypto.Sodium.{Sodium, IsSodium}
use fin_bit.Crypto.Hkdf.{hkdf_extract}
use fin_bit.Crypto.Hkdf.Laws.{rfc_blocks, hkdf_expand-rfc}
use fin_bit.Media.Sframe.{room_label, derive_room_sframe_key}
use fin_bit.Media.RoomKeys.{
  Cache, RoomKeyRegistry, keep_epochs, retire, covering_secret, set_secret,
}

-- The secrets that a member accepts: the current one, and the one before it with its deadline.
pub record Epochs : Type 0 where
  pub current : Option (Bytes × ℕ)
  pub previous : Option (Bytes × ℕ × ℕ)

abbrev pub no_epochs : Epochs
no_epochs = record { current = none; previous = none }

abbrev pub installed : ℕ → ℕ → Bytes → ℕ → Epochs → Epochs
installed grace now secret epoch a = elim a.current [
  | none ↦ record { current = some (secret, epoch); previous = a.previous }
  | some (s, e) ↦
      if leb epoch e
      then a
      else record { current = some (secret, epoch); previous = some (s, e, now + grace) }
]

abbrev previous_secret : ℕ → ℕ → Option (Bytes × ℕ × ℕ) → Option Bytes
previous_secret now e none = none
previous_secret now e (some (s, f, deadline)) = if eqb e f && ltb now deadline then some s else none

abbrev pub accepted : ℕ → ℕ → Epochs → Option Bytes
accepted now e a = elim a.current [
  | none ↦ previous_secret now e a.previous
  | some (s, f) ↦ if eqb e f then some s else previous_secret now e a.previous
]

-- What the fields of a registry stand for.
abbrev pub view : RoomKeyRegistry → Epochs
view r = record {
  current = if r.has then some (r.cur_secret, r.cur_epoch) else none;
  previous = if r.has_prev then some (r.prev_secret, r.prev_epoch, r.prev_until) else none;
}

pub covering_secret-view :
    (now e : ℕ) (r : RoomKeyRegistry) → covering_secret now e r ≡ accepted now e (view r)
unfolding covering_secret
covering_secret-view now e r = ground arith

module _ (sodium : Sodium) where
  -- The key that HKDF gives for a sender and an epoch.
  abbrev pub room_key : Bytes → Bytes → ℕ → Bytes
  room_key secret sender epoch = take 32 (
      rfc_blocks sodium 255 (hkdf_extract sodium [] secret) (room_label ++ sender ++ be32 epoch) 0
        [])

  abbrev pub opened : Bytes → ℕ → Option Bytes → Option Bytes
  opened sender e none = none
  opened sender e (some s) = some (room_key s sender e)

  -- An entry of the cache is the key of the current or of the previous secret.
  abbrev pub IsCovered : RoomKeyRegistry → Bytes → ℕ → Bytes → Type 0
  IsCovered r sender e key =
      ((e ≡ r.cur_epoch) × (key ≡ room_key r.cur_secret sender e))
      ⊎ ((r.has_prev ≡ true) × (e ≡ r.prev_epoch) × (key ≡ room_key r.prev_secret sender e))

  pub record IsValid (r : RoomKeyRegistry) : Type 0 where
    pub cached :
        (sender : Bytes) (e : ℕ) (key : Bytes)
        → lookup (sender, e) r.cache ≡ some key
        → (r.has ≡ true) × IsCovered r sender e key
    pub older : r.has_prev ≡ true → r.prev_epoch < r.cur_epoch
    pub started : r.has ≡ false → r.has_prev ≡ false
    pub sealed :
        r.has ≡ true
        → (r.cur_seal.key ≡ room_key r.cur_secret r.my_pubkey r.cur_epoch)
          × (r.cur_seal.epoch ≡ r.cur_epoch)

  -- A registry that comes out of a call: valid, for the secrets `a`, of the same member.
  pub record Continues (r : RoomKeyRegistry) (a : Epochs) (r' : RoomKeyRegistry) : Type 0 where
    pub is_valid : IsValid r'
    pub views : view r' ≡ a
    pub same_grace : r'.grace ≡ r.grace

lookup-keep_epochs :
    (sender : Bytes) (e : ℕ) (r : RoomKeyRegistry) (m : Cache)
    → lookup (sender, e) (keep_epochs r m) ≡ (
        if eqb e r.cur_epoch || (r.has_prev && eqb e r.prev_epoch)
        then lookup (sender, e) m
        else none)
unfolding lookup keep_epochs
lookup-keep_epochs sender e r [] = ground arith
lookup-keep_epochs sender e r (((s, f), key) ∷ m) =
    ground (arith, lookup-keep_epochs sender e r m, ==_iff s sender)

module _ (sodium : Sodium) (h : IsSodium sodium) where
  pub derive-room_key :
      (secret sender : Bytes) (epoch : ℕ)
      → derive_room_sframe_key sodium secret sender epoch ≡ ok (room_key sodium secret sender epoch)
  unfolding derive_room_sframe_key
  derive-room_key secret sender epoch =
      let r =
        hkdf_expand-rfc sodium h (hkdf_extract sodium [] secret)
          (room_label ++ sender ++ be32 epoch) 32 (omega arith) (omega arith) in
      rw (r.0, derive_room_sframe_key) refl

  -- A registry with a new secret, before the old cache is sifted.
  abbrev after : ℕ → Bytes → ℕ → RoomKeyRegistry → RoomKeyRegistry
  after now secret epoch r =
      let i : RoomKeyRegistry = record (retire now r) {
        cur_secret = secret;
        cur_epoch = epoch;
        has = true;
      } in
      record i {
        cur_seal = record { key = room_key sodium secret r.my_pubkey epoch; epoch = epoch };
        cache = keep_epochs i r.cache;
      }

  set_secret-after :
      (now : ℕ) (secret : Bytes) (epoch : ℕ) (r : RoomKeyRegistry)
      → (r.has && leb epoch r.cur_epoch) ≡ false
      → set_secret sodium now secret epoch r ≡ ok (after now secret epoch r)
  unfolding set_secret
  set_secret-after now secret epoch r e =
      rw (e, set_secret) (rw (derive-room_key secret r.my_pubkey epoch, set_secret) refl)

  first-IsValid :
      (now : ℕ) (secret : Bytes) (epoch : ℕ) (r : RoomKeyRegistry)
      → IsValid sodium r
      → r.has ≡ false
      → Continues sodium r (installed r.grace now secret epoch (view r)) (after now secret epoch r)
  unfolding retire
  first-IsValid now secret epoch r v first =
      rw (first, retire)
        (record {
          is_valid = record {
            cached = λ sender e key found. absurd (
                ground (
                  arith,
                  lookup-keep_epochs sender e
                      (record r { cur_secret = secret; cur_epoch = epoch; has = true }) r.cache,
                  v.cached sender e key,
                ));
            older = λ p. absurd (ground (arith, v.started first));
            started = λ p. absurd (ground arith);
            sealed = λ p. (refl, refl);
          };
          views = refl;
          same_grace = refl;
        })

  again-IsValid :
      (now : ℕ) (secret : Bytes) (epoch : ℕ) (r : RoomKeyRegistry)
      → IsValid sodium r
      → r.has ≡ true
      → r.cur_epoch < epoch
      → Continues sodium r (installed r.grace now secret epoch (view r)) (after now secret epoch r)
  unfolding retire
  again-IsValid now secret epoch r v again newer =
      rw (again, retire)
        (record {
          is_valid = record {
            cached = λ sender e key found. (
              refl,
              ground (
                arith,
                lookup-keep_epochs sender e
                    (record r {
                      cur_secret = secret;
                      cur_epoch = epoch;
                      has = true;
                      prev_secret = r.cur_secret;
                      prev_epoch = r.cur_epoch;
                      has_prev = true;
                      prev_until = now + r.grace;
                    })
                    r.cache,
                v.cached sender e key,
                v.older,
              ),
            );
            older = λ p. newer;
            started = λ p. absurd (ground arith);
            sealed = λ p. (refl, refl);
          };
          views = ground arith;
          same_grace = refl;
        })

  pub set_secret-installed :
      (now : ℕ) (secret : Bytes) (epoch : ℕ) (r : RoomKeyRegistry)
      → IsValid sodium r
      → (r' : RoomKeyRegistry) × (set_secret sodium now secret epoch r ≡ ok r')
        × Continues sodium r (installed r.grace now secret epoch (view r)) r'
  unfolding set_secret
  set_secret-installed now secret epoch r v = elim (Bool-cases r.has) [
    | inr first ↦ (
      after now secret epoch r,
      set_secret-after now secret epoch r (ground arith),
      first-IsValid now secret epoch r v first,
    )
    | inl again ↦ elim (Bool-cases (leb epoch r.cur_epoch)) [
      | inl stale ↦ (
        r,
        rw (again, stale, set_secret) refl,
        record { is_valid = v; views = rw (again, stale) refl; same_grace = refl },
      )
      | inr fresh ↦ (
        after now secret epoch r,
        set_secret-after now secret epoch r (ground arith),
        again-IsValid now secret epoch r v again (ground arith),
      )
    ]
  ]
