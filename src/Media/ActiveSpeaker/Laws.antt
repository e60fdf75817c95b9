-- ===== src/Media/ActiveSpeaker/Laws.antt =====
-- core/src/media/active_speaker.cpp: who stays audible.
use fin_bit.Prelude.{
  ℕ, ◌<◌, ◌≤◌, ◌≡◌, ◌⊎◌, refl, List, Bool, true, false, map, length, take, leb, less_asymm, arith,
  Bool-cases, inl, inr,
}
use fin_bit.Prelude.Sorting.{IsSorted, count, count-sort, sort, sort-IsSorted}
use fin_bit.Media.ActiveSpeaker.{Entry, louder, select_active_speakers, talking}

module _ {Level : Type 0} (quieter : Level → Level → Bool) where
  louder_asymm :
      ((a b : Level) → quieter a b ≡ true → quieter b a ≡ false)
      → (x y : Entry quieter) → louder quieter x y ≡ true
      → louder quieter y x ≡ false
  unfolding louder
  louder_asymm asymm x y h = ground (arith, asymm x.1 y.1, asymm y.1 x.1, less_asymm x.0 y.0)

  -- With no more talkers than the limit everybody is audible; with more, the first talkers, as many
  -- as the limit, of an arrangement of all talkers with the loudest first.
  pub select_active_speakers_lem :
      ((a b : Level) → quieter a b ≡ true → quieter b a ≡ false)
      → (levels : List (Entry quieter)) (max_active : ℕ) (floor : Level)
      → let talkers = talking quieter floor levels in
        ((length talkers ≤ max_active)
          × (select_active_speakers quieter levels max_active floor ≡ map (λ e. e.0) levels))
        ⊎ ((max_active < length talkers)
            × ((ranked : List (Entry quieter)) × IsSorted (louder quieter) ranked
                × ((test : Entry quieter → Bool) → count test ranked ≡ count test talkers)
                × (select_active_speakers quieter levels max_active floor
                    ≡ map (λ e. e.0) (take max_active ranked))))
  unfolding select_active_speakers
  select_active_speakers_lem asymm levels max_active floor =
      let talkers = talking quieter floor levels in
      elim (Bool-cases (leb (length talkers) max_active)) [
        | inl few ↦ inl (ground arith, rw few refl)
        | inr many ↦ inr (
          ground arith,
          (
            sort (louder quieter) talkers,
            sort-IsSorted (louder quieter) (louder_asymm asymm) talkers,
            (λ test. count-sort (louder quieter) test talkers),
            rw many refl,
          ),
        )
      ]
