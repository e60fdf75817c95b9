-- ===== src/Media/RoomKeys.antt =====
-- core/src/media/room_keys.cpp: the secret of a call, and the one before it for a while. The
-- steady clock is an argument, in milliseconds; the mutex makes each method one step.
use fin_bit.Prelude.{
  ℕ, ◌+◌, ◌≡◌, List, [], ◌∷◌, Option, none, some, Bool, true, false, ◌&&◌, ◌||◌, Bytes, Eq, ◌==◌,
  nat_eq, list_eq, pair_eq, leb, ltb, eqb, if◌then◌else◌, replicate,
}
use fin_bit.Prelude.Dict.{lookup, insert}
use fin_bit.Prelude.Result.{Result, ok, err, ◌>>=◌}
use fin_bit.Crypto.Sodium.{Sodium}
use fin_bit.Media.Sframe.{SframeError, derive_room_sframe_key}
pub mod Laws
pub mod Opening
pub mod History
mod Tests

pub record SealKey : Type 0 where
  pub key : Bytes
  pub epoch : ℕ

abbrev pub Cache : Type 0
Cache = List ((Bytes × ℕ) × Bytes)

pub record RoomKeyRegistry : Type 0 where
  pub my_pubkey : Bytes
  pub grace : ℕ
  pub has : Bool
  pub cur_secret : Bytes
  pub cur_epoch : ℕ
  pub cur_seal : SealKey
  pub has_prev : Bool
  pub prev_secret : Bytes
  pub prev_epoch : ℕ
  pub prev_until : ℕ
  pub cache : Cache

abbrev pub no_key : Bytes
no_key = replicate 32 0

unfoldable pub new_registry : Bytes → ℕ → RoomKeyRegistry
new_registry my_pubkey grace = record {
  my_pubkey = my_pubkey;
  grace = grace;
  has = false;
  cur_secret = no_key;
  cur_epoch = 0;
  cur_seal = record { key = no_key; epoch = 0 };
  has_prev = false;
  prev_secret = no_key;
  prev_epoch = 0;
  prev_until = 0;
  cache = [];
}

-- The loop that drops the entries of other epochs.
unfoldable pub keep_epochs : RoomKeyRegistry → Cache → Cache
keep_epochs r [] = []
keep_epochs r (((sender, e), key) ∷ m) =
    let rest = keep_epochs r m in
    if eqb e r.cur_epoch || (r.has_prev && eqb e r.prev_epoch)
    then ((sender, e), key) ∷ rest
    else rest

-- The current secret moves into the grace slot.
unfoldable pub retire : ℕ → RoomKeyRegistry → RoomKeyRegistry
retire now r =
    if r.has
    then record r {
      prev_secret = r.cur_secret;
      prev_epoch = r.cur_epoch;
      has_prev = true;
      prev_until = now + r.grace;
    }
    else r

unfoldable pub has_secret : RoomKeyRegistry → Bool
has_secret r = r.has

unfoldable pub epoch_of : RoomKeyRegistry → ℕ
epoch_of r = r.cur_epoch

unfoldable pub seal_key : RoomKeyRegistry → Option SealKey
seal_key r = if r.has then some r.cur_seal else none

-- Which secret covers this frame's epoch?
unfoldable pub covering_secret : ℕ → ℕ → RoomKeyRegistry → Option Bytes
covering_secret now frame_epoch r =
    if r.has && eqb frame_epoch r.cur_epoch
    then some r.cur_secret
    else (if r.has_prev && eqb frame_epoch r.prev_epoch && ltb now r.prev_until
        then some r.prev_secret
        else none)

module _ (sodium : Sodium) where
  unfoldable pub set_secret : ℕ → Bytes → ℕ → RoomKeyRegistry → Result SframeError RoomKeyRegistry
  unfolding retire keep_epochs
  set_secret now secret epoch r =
      let installed = record (retire now r) {
        cur_secret = secret;
        cur_epoch = epoch;
        has = true;
      } in
      if r.has && leb epoch r.cur_epoch
      then ok r
      else (derive_room_sframe_key sodium secret r.my_pubkey epoch >>= λ key. ok (record installed {
        cur_seal = record { key = key; epoch = epoch };
        cache = keep_epochs installed r.cache;
      }))

  unfoldable pub open_key :
      ℕ → Bytes → ℕ → RoomKeyRegistry → Result SframeError (Option Bytes × RoomKeyRegistry)
  unfolding covering_secret
  open_key now sender_pubkey frame_epoch r = elim (covering_secret now frame_epoch r) [
    | none ↦ ok (none, r)
    | some secret ↦ elim (lookup (sender_pubkey, frame_epoch) r.cache) [
      | some key ↦ ok (some key, r)
      | none ↦ derive_room_sframe_key sodium secret sender_pubkey frame_epoch >>= λ key.
          ok (some key, record r { cache = insert (sender_pubkey, frame_epoch) key r.cache })
    ]
  ]
