-- ===== src/Media/RoomKeys/Tests.antt =====
-- A rotation with frames of both epochs.
use fin_bit.Prelude.{◌≡◌, List, [], ◌∷◌}
use fin_bit.Prelude.Result.{ok}
use fin_bit.Crypto.Sodium.{toy_sodium, toy_sodium-IsSodium}
use fin_bit.Media.RoomKeys.{new_registry}
use fin_bit.Media.RoomKeys.Laws.{no_epochs}
use fin_bit.Media.RoomKeys.History as History
use fin_bit.Media.RoomKeys.History.{Call, run, run_epochs}

abbrev rotation : List Call
rotation =
    Call.installs 0 (1 ∷ []) 1
    ∷ Call.opens 1 (5 ∷ []) 1
    ∷ Call.installs 2 (2 ∷ []) 2
    ∷ Call.opens 3 (5 ∷ []) 1
    ∷ Call.opens 3 (5 ∷ []) 2
    ∷ Call.opens 9000 (5 ∷ []) 1
    ∷ []

run-new_registry_example :
    run toy_sodium (new_registry (9 ∷ []) 3000) rotation
    ≡ ok (run_epochs toy_sodium 3000 no_epochs rotation)
run-new_registry_example =
    History.run-new_registry toy_sodium toy_sodium-IsSodium rotation (9 ∷ []) 3000
