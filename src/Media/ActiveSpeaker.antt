-- ===== src/Media/ActiveSpeaker.antt =====
-- core/src/media/active_speaker.cpp. A level is a `double` that is a number; of levels only `<` is
-- used, which is a parameter. The map is the list of its entries, the set that of its elements, and
-- `std::partial_sort` is a sort of which only the front is read.
use fin_bit.Prelude.{
  ℕ, List, [], ◌∷◌, Bool, true, false, not, Bytes, map, length, take, leb, less, if◌then◌else◌,
}
use fin_bit.Prelude.Sorting.{sort}
pub mod Laws

module _ {Level : Type 0} (quieter : Level → Level → Bool) where
  abbrev pub Entry : Type 0
  Entry = Bytes × Level

  unfoldable pub talking : Level → List Entry → List Entry
  talking floor [] = []
  talking floor (e ∷ levels) =
      let rest = talking floor levels in if quieter e.1 floor then rest else e ∷ rest

  -- Louder first, and by key where the levels are equal.
  unfoldable pub louder : Entry → Entry → Bool
  louder a b = if quieter b.1 a.1 then true else (if quieter a.1 b.1 then false else less a.0 b.0)

  unfoldable pub select_active_speakers : List Entry → ℕ → Level → List Bytes
  unfolding talking louder sort
  select_active_speakers levels max_active floor =
      let talkers = talking floor levels in
      if leb (length talkers) max_active
      then map (λ (e : Entry). e.0) levels
      else map (λ (e : Entry). e.0) (take max_active (sort louder talkers))
