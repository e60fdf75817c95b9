-- ===== src/Media/TrackBindings/Laws.antt =====
-- core/src/media/track_bindings.cpp: what a subscriber finds.
use fin_bit.Prelude.{
  ◌≡◌, refl, List, [], ◌∷◌, ◌++◌, Option, none, some, Bytes, ◌==◌, nat_eq, list_eq, length, eqb,
  if◌then◌else◌, Bool-cases, inl, inr,
}
use fin_bit.Media.TrackBindings.{RoomOffer, TrackBinding, bind_track, find_mid, sender_for_track}

abbrev or_else : Option Bytes → Option Bytes → Option Bytes
or_else none other = other
or_else (some key) other = some key

find_mid-snoc :
    (mid : Bytes) (bindings : List TrackBinding) (tb : TrackBinding)
    → find_mid mid (bindings ++ tb ∷ [])
      ≡ or_else (find_mid mid bindings) (if tb.mid == mid then some tb.sender_pubkey else none)
unfolding find_mid
find_mid-snoc mid [] tb = refl
find_mid-snoc mid (first ∷ bindings) tb = elim (Bool-cases (first.mid == mid)) [
  | inl here ↦ rw here refl
  | inr later ↦ rw later (find_mid-snoc mid bindings tb)
]

-- A binding is found for its track unless the track had one before, and it changes no other track.
pub sender_for_track-bind_track :
    (offer : RoomOffer) (mid mid' key : Bytes)
    → sender_for_track (bind_track offer mid key) mid' ≡ (
        if eqb (length mid') 0
        then none
        else or_else (sender_for_track offer mid') (if mid == mid' then some key else none))
unfolding sender_for_track bind_track
sender_for_track-bind_track offer mid mid' key = elim (Bool-cases (eqb (length mid') 0)) [
  | inl empty ↦ rw empty refl
  | inr named ↦
      rw named (find_mid-snoc mid' offer.track_bindings (record { mid = mid; sender_pubkey = key }))
]
