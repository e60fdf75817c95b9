-- ===== src/Media/TrackBindings.antt =====
-- core/src/media/track_bindings.cpp, on the fields of the message RoomOffer of core/proto/
-- envelope.proto.
use fin_bit.Prelude.{
  ℕ, ◌≡◌, refl, List, [], ◌∷◌, ◌++◌, Option, none, some, Bool, Bytes, ◌==◌, nat_eq, list_eq, length,
  eqb, if◌then◌else◌, arith,
}
pub mod Laws

pub record TrackBinding : Type 0 where
  pub mid : Bytes
  pub sender_pubkey : Bytes

pub record RoomOffer : Type 0 where
  pub room_id : Bytes
  pub sdp : Bytes
  pub track_bindings : List TrackBinding

unfoldable pub bind_track : RoomOffer → Bytes → Bytes → RoomOffer
bind_track offer mid sender_pubkey = record offer {
  track_bindings = offer.track_bindings ++ record { mid = mid; sender_pubkey = sender_pubkey } ∷ [];
}

unfoldable pub find_mid : Bytes → List TrackBinding → Option Bytes
find_mid mid [] = none
find_mid mid (tb ∷ bindings) =
    if tb.mid == mid then some tb.sender_pubkey else find_mid mid bindings

unfoldable pub sender_for_track : RoomOffer → Bytes → Option Bytes
unfolding find_mid
sender_for_track offer mid = if eqb (length mid) 0 then none else find_mid mid offer.track_bindings
