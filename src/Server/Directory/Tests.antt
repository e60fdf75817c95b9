-- ===== src/Server/Directory/Tests.antt =====
-- The directory at concrete inputs.
use fin_bit.Prelude.{
  List, c_str, subst, ◌==◌, ==_iff, Bool-cases, inl, inr, arith, ◌≡◌, refl, [], ◌∷◌, Bytes, nat_eq,
  list_eq, some, none, false,
}
use fin_bit.Prelude.Dict.{Distinct, insert, lookup}
use fin_bit.Server.Directory.{
  Tables, Directory, register_user, put_bundle, get_bundle, resolve, reverse_resolve,
}
use fin_bit.Server.Directory.Invariant.{
  ArePlain, Call, IsValid, puts, registers, resolves, reverses, run,
}
use fin_bit.Server.Directory.Owners.{register_user_first}
use fin_bit.Server.Directory.Restart.{AllPlain, restarted, restart_reads}

abbrev ann : Bytes
ann = b'a' ∷ b'n' ∷ b'n' ∷ []

abbrev tables : Tables
tables = record { names = (ann, 7 ∷ []) ∷ []; bundles = [] }

abbrev fresh : Directory
fresh = record { name_to_pub = []; name_to_bundle = []; store = none }

fresh-IsValid : IsValid fresh
fresh-IsValid = record { mirrors = tt }

finds_by_key : (reverse_resolve (7 ∷ []) (restarted tables)).0 ≡ some ann
unfolding reverse_resolve
finds_by_key = refl

register_user_first_example :
    (register_user ann
      (8 ∷ [])
      (run (register_user ann (7 ∷ []) fresh).1 (reverses (8 ∷ []) ∷ []))).0
    ≡ false
register_user_first_example =
    register_user_first fresh ann (7 ∷ []) (8 ∷ []) (reverses (8 ∷ []) ∷ []) fresh-IsValid
      (unfold register_user lookup in refl)

-- A registration, a lookup of a row that another run wrote, and a bundle.
abbrev calls : List Call
calls =
    registers (b'b' ∷ b'o' ∷ b'b' ∷ []) (8 ∷ [])
    ∷ resolves ann
    ∷ puts (8 ∷ []) (1 ∷ 2 ∷ [])
    ∷ reverses (7 ∷ [])
    ∷ []

tables-Distinct : Distinct tables.names
unfolding lookup
tables-Distinct = (refl, tt)

tables-ArePlain : ArePlain tables.names
unfolding lookup c_str
tables-ArePlain name p h = elim (Bool-cases (ann == name)) [
  | inl e ↦ subst (λ k. c_str k ≡ k) ((==_iff ann name).0 e) refl
  | inr e ↦ absurd (ground (arith, h, e))
]

calls-AllPlain : AllPlain calls
unfolding c_str
calls-AllPlain = (refl, (refl, (tt, (tt, tt))))

bob_found : (resolve (b'b' ∷ b'o' ∷ b'b' ∷ []) (run (restarted tables) calls)).0 ≡ some (8 ∷ [])
unfolding register_user put_bundle resolve reverse_resolve lookup insert
bob_found = refl

-- A name that is cut at its zero byte takes the row of another one.
cut_name :
    (resolve ann (run (restarted tables) (registers (b'a' ∷ b'n' ∷ b'n' ∷ 0 ∷ []) (9 ∷ []) ∷ []))).0
    ≡ some (9 ∷ [])
unfolding register_user resolve lookup insert
cut_name = refl

restart_reads_example :
    (u : Tables) × ((run (restarted tables) calls).store ≡ some u)
    × ((resolve (b'b' ∷ b'o' ∷ b'b' ∷ []) (restarted u)).0
        ≡ (resolve (b'b' ∷ b'o' ∷ b'b' ∷ []) (run (restarted tables) calls)).0)
    × ((get_bundle (8 ∷ []) (restarted u)).0
        ≡ (get_bundle (8 ∷ []) (run (restarted tables) calls)).0)
restart_reads_example =
    restart_reads tables calls (b'b' ∷ b'o' ∷ b'b' ∷ []) (8 ∷ []) tables-Distinct tables-ArePlain
      calls-AllPlain (unfold c_str in refl)
