-- ===== src/Media/Forwarding/Election.antt =====
-- The forwarder that is elected.
use fin_bit.Prelude.{ℕ, ◌≡◌, ◌≢◌, List, [], ◌∷◌, Option, none, some, false, get_elem?, ◌⊎◌}
use fin_bit.Media.Forwarding.{ForwarderCandidate, better}

-- No usable candidate of the list has a higher class, or the same class and a smaller key.
abbrev pub NoneBetter : ForwarderCandidate → List ForwarderCandidate → Type 0
NoneBetter r [] = Unit
NoneBetter r (c ∷ cs) = ((c.uplink_class ≡ 0) ⊎ (better c r ≡ false)) × NoneBetter r cs

abbrev pub NoneUsable : List ForwarderCandidate → Type 0
NoneUsable [] = Unit
NoneUsable (c ∷ cs) = (c.uplink_class ≡ 0) × NoneUsable cs

-- What the loop leaves, from a best candidate on.
abbrev Improves : ForwarderCandidate → List ForwarderCandidate → Option ForwarderCandidate → Type 0
Improves b cs o =
    (r : ForwarderCandidate) × (o ≡ some r)
    × NoneBetter r cs
    × ((r ≡ b) ⊎ ((i : ℕ) × (get_elem? cs i ≡ some r)))
    × ((d : ForwarderCandidate) → better d b ≡ false → better d r ≡ false)
    × (b.uplink_class ≢ 0 → r.uplink_class ≢ 0)

-- A usable candidate of the list than which none is better; or none is usable.
abbrev pub Elected : List ForwarderCandidate → Option ForwarderCandidate → Type 0
Elected cs o =
    ((o ≡ none) × NoneUsable cs)
    ⊎ ((r : ForwarderCandidate) × (o ≡ some r)
        × NoneBetter r cs
        × ((i : ℕ) × (get_elem? cs i ≡ some r))
        × (r.uplink_class ≢ 0))
