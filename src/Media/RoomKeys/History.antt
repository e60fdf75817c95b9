-- ===== src/Media/RoomKeys/History.antt =====
-- The registry of a member over a call: secrets that arrive and frames that are opened.
use fin_bit.Prelude.{
  ℕ, ◌≡◌, refl, ap, ◌∙◌, List, [], ◌∷◌, Option, Bytes, nat_eq, list_eq, pair_eq, arith,
}
use fin_bit.Prelude.Dict.{lookup}
use fin_bit.Prelude.Result.{Result, ok, err, ◌>>=◌}
use fin_bit.Crypto.Sodium.{Sodium, IsSodium}
use fin_bit.Media.Sframe.{SframeError}
use fin_bit.Media.RoomKeys.{RoomKeyRegistry, new_registry, covering_secret, set_secret, open_key}
use fin_bit.Media.RoomKeys.Opening.{open_key-accepted}
use fin_bit.Media.RoomKeys.Laws.{
  Epochs, no_epochs, installed, accepted, view, opened, IsValid, covering_secret-view,
  set_secret-installed,
}

-- `installs now secret epoch`, `opens now sender epoch`
pub data Call : Type 0 where
  installs opens : ℕ → Bytes → ℕ → Call

-- The keys that the calls return, one for each frame.
abbrev with_answer :
    Option Bytes
    → Result SframeError (List (Option Bytes))
    → Result SframeError (List (Option Bytes))
with_answer a (ok answers) = ok (a ∷ answers)
with_answer a (err e) = err e

abbrev pub run : Sodium → RoomKeyRegistry → List Call → Result SframeError (List (Option Bytes))
run sodium r [] = ok []
run sodium r (installs now secret epoch ∷ calls) =
    set_secret sodium now secret epoch r >>= λ r'. run sodium r' calls
run sodium r (opens now sender epoch ∷ calls) =
    open_key sodium now sender epoch r >>= λ p. with_answer p.0 (run sodium p.1 calls)

-- The same without a cache.
abbrev pub run_epochs : Sodium → ℕ → Epochs → List Call → List (Option Bytes)
run_epochs sodium grace a [] = []
run_epochs sodium grace a (installs now secret epoch ∷ calls) =
    run_epochs sodium grace (installed grace now secret epoch a) calls
run_epochs sodium grace a (opens now sender epoch ∷ calls) =
    opened sodium sender epoch (accepted now epoch a) ∷ run_epochs sodium grace a calls

new_registry-IsValid :
    (sodium : Sodium) (my_pubkey : Bytes) (grace : ℕ)
    → IsValid sodium (new_registry my_pubkey grace)
unfolding new_registry lookup
new_registry-IsValid sodium my_pubkey grace = record {
  cached = λ sender e key found. absurd (ground arith);
  older = λ p. absurd (ground arith);
  started = λ p. refl;
  sealed = λ p. absurd (ground arith);
}

module _ (sodium : Sodium) (h : IsSodium sodium) where
  run-view :
      (calls : List Call) (r : RoomKeyRegistry)
      → IsValid sodium r
      → run sodium r calls ≡ ok (run_epochs sodium r.grace (view r) calls)
  run-view [] r v = refl
  run-view (installs now secret epoch ∷ calls) r v =
      let (r', is_r', c) = set_secret-installed sodium h now secret epoch r v in
      rw is_r' (
        run-view calls r' c.is_valid
        ∙ ap (λ g. ok (run_epochs sodium g (view r') calls)) c.same_grace
        ∙ ap (λ a. ok (run_epochs sodium r.grace a calls)) c.views)
  run-view (opens now sender epoch ∷ calls) r v =
      let (r', is_r', c) = open_key-accepted sodium h now sender epoch r v in
      rw is_r' (
        rw (run-view calls r' c.is_valid) (
          ap
            (λ g. ok (
              opened sodium sender epoch (covering_secret now epoch r)
              ∷ run_epochs sodium g (view r') calls))
            c.same_grace
          ∙ ap
              (λ a. ok (
                opened sodium sender epoch (covering_secret now epoch r)
                ∷ run_epochs sodium r.grace a calls))
              c.views
          ∙ ap (λ s. ok (opened sodium sender epoch s ∷ run_epochs sodium r.grace (view r) calls))
              (covering_secret-view now epoch r)))

  -- For every series of arriving secrets and frames, a new registry never fails and returns for
  -- each frame the key that HKDF derives from the secret of the frame's epoch: the newest secret,
  -- or the one it replaced, until its grace time has passed. The cache never shows.
  pub run-new_registry :
      (calls : List Call) (my_pubkey : Bytes) (grace : ℕ)
      → run sodium (new_registry my_pubkey grace) calls
        ≡ ok (run_epochs sodium grace no_epochs calls)
  unfolding new_registry
  run-new_registry calls my_pubkey grace =
      run-view calls (new_registry my_pubkey grace) (new_registry-IsValid sodium my_pubkey grace)
