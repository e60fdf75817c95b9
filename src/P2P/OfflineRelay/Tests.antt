-- ===== src/P2P/OfflineRelay/Tests.antt =====
-- A store with one message, at concrete times.
use fin_bit.Prelude.{[], ◌∷◌, Bytes, nat_eq, list_eq, replicate, arith}
use fin_bit.Prelude.Dict.{lookup, lookup_or}
use fin_bit.P2P.OfflineRelay.{Blob, Store}
use fin_bit.P2P.OfflineRelay.Limits as Limits
use fin_bit.P2P.OfflineRelay.Limits.{IsValid, Call, call}

abbrev alice : Bytes
alice = replicate 32 1

abbrev old_message : Blob
old_message = record { bytes = 9 ∷ []; deposited_at_ms = 5 }

abbrev one_message : Store
one_message = (alice, old_message ∷ []) ∷ []

empty-IsValid : IsValid []
unfolding lookup_or lookup
empty-IsValid = record { distinct = tt; capped = λ r. omega arith }

call-IsValid_example : IsValid (call 0 (Call.deposits alice (7 ∷ []) 6) [])
call-IsValid_example = Limits.call-IsValid 0 (Call.deposits alice (7 ∷ []) 6) [] empty-IsValid
