-- ===== src/Prelude/Checks.antt =====
-- A test of all numbers below a bound, for facts that a run of the test shows.
use Prim.Native.Nat.{ℕ, zero, suc, ◌<◌}
use mathlib.Core.Path.{◌≡◌}
use mathlib.Core.Logic.{◌≢◌, inl, inr}
use mathlib.Core.Bool.{Bool, true, false, ◌&&◌}
use native.Mathlib.Omega.{arith}
use fin_bit.Prelude.Tests.{eqb, eqb_iff, Bool-cases}

abbrev pub all_below : ℕ → (ℕ → Bool) → Bool
all_below zero test = true
all_below (suc n) test = test n && all_below n test

eqb_ne : {a b : ℕ} → eqb a b ≡ false → a ≢ b
eqb_ne h = ground arith

pub all_below_lem :
    (n : ℕ) (test : ℕ → Bool) → all_below n test ≡ true → (k : ℕ) → k < n → test k ≡ true
all_below_lem zero test h k lt = absurd (omega arith)
all_below_lem (suc n) test h k lt = elim (Bool-cases (eqb k n)) [
  | inl e ↦ rw ((eqb_iff k n).0 e) (ground arith)
  | inr e ↦ all_below_lem n test (ground arith) k (omega (arith, eqb_ne e))
]
