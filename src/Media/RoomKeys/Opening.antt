-- ===== src/Media/RoomKeys/Opening.antt =====
-- The keys that a registry opens frames with.
use fin_bit.Prelude.{
  ℕ, ◌≡◌, refl, sym, subst, ap, ◌∙◌, some, true, Bytes, ◌==◌, ==_iff, nat_eq, list_eq, pair_eq,
  arith, Bool-cases, Option-cases, inl, inr,
}
use fin_bit.Prelude.Dict.{lookup, insert, lookup-insert}
use fin_bit.Prelude.Result.{ok}
use fin_bit.Crypto.Sodium.{Sodium, IsSodium}
use fin_bit.Media.RoomKeys.{RoomKeyRegistry, covering_secret, open_key}
use fin_bit.Media.RoomKeys.Laws.{
  view, opened, room_key, IsCovered, IsValid, Continues, derive-room_key,
}

module _ (sodium : Sodium) (h : IsSodium sodium) where
  covering_secret-IsCovered :
      (now : ℕ) (sender : Bytes) (e : ℕ) (r : RoomKeyRegistry) (s : Bytes)
      → IsValid sodium r
      → covering_secret now e r ≡ some s
      → (r.has ≡ true) × IsCovered sodium r sender e (room_key sodium s sender e)
  unfolding covering_secret
  covering_secret-IsCovered now sender e r s v c = ground (arith, v.started)

  cached_key :
      (now : ℕ) (sender : Bytes) (e : ℕ) (r : RoomKeyRegistry) (s key : Bytes)
      → IsValid sodium r
      → covering_secret now e r ≡ some s
      → lookup (sender, e) r.cache ≡ some key
      → key ≡ room_key sodium s sender e
  unfolding covering_secret
  cached_key now sender e r s key v c found = ground (arith, v.cached sender e key found, v.older)

  insert_cached :
      (r : RoomKeyRegistry) (sender : Bytes) (e : ℕ) (s : Bytes)
      → IsValid sodium r
      → (r.has ≡ true) × IsCovered sodium r sender e (room_key sodium s sender e)
      → (other : Bytes) (f : ℕ) (key : Bytes)
      → lookup (other, f) (insert (sender, e) (room_key sodium s sender e) r.cache) ≡ some key
      → (r.has ≡ true) × IsCovered sodium r other f key
  insert_cached r sender e s v c other f key found =
      let value =
        sym (lookup-insert (sender, e) (other, f) (room_key sodium s sender e) r.cache) ∙ found in
      elim (Bool-cases (◌==◌ {A = Bytes × ℕ} (sender, e) (other, f))) [
        | inr different ↦ v.cached other f key (ground (arith, value))
        | inl same ↦
            let is_key : room_key sodium s sender e ≡ key = ground (arith, value) in
            let is_pair : Path (Bytes × ℕ) (sender, e) (other, f) =
              (==_iff {A = Bytes × ℕ} (sender, e) (other, f)).0 same in
            subst (λ (k : Bytes). (r.has ≡ true) × IsCovered sodium r other f k) is_key
              (subst
                (λ (p : Bytes × ℕ).
                  (r.has ≡ true) × IsCovered sodium r p.0 p.1 (room_key sodium s sender e))
                is_pair c)
      ]

  pub open_key-accepted :
      (now : ℕ) (sender : Bytes) (e : ℕ) (r : RoomKeyRegistry)
      → IsValid sodium r
      → (r' : RoomKeyRegistry) × (open_key sodium now sender e r
          ≡ ok (opened sodium sender e (covering_secret now e r), r'))
        × Continues sodium r (view r) r'
  unfolding open_key
  open_key-accepted now sender e r v = elim (Option-cases (covering_secret now e r)) [
    | inl c ↦ (r, rw (c, open_key) refl, record { is_valid = v; views = refl; same_grace = refl })
    | inr (s, c) ↦ elim (Option-cases (lookup (sender, e) r.cache)) [
      | inr (key, found) ↦ (
        r,
        rw (c, open_key)
            (rw (found, open_key)
              (ap (λ k. ok (some k, r)) (cached_key now sender e r s key v c found))),
        record { is_valid = v; views = refl; same_grace = refl },
      )
      | inl missing ↦ (
        record r { cache = insert (sender, e) (room_key sodium s sender e) r.cache },
        rw (c, open_key)
            (rw (missing, open_key) (rw (derive-room_key sodium h s sender e, open_key) refl)),
        record {
          is_valid = record {
            cached = insert_cached r sender e s v (covering_secret-IsCovered now sender e r s v c);
            older = v.older;
            started = v.started;
            sealed = v.sealed;
          };
          views = refl;
          same_grace = refl;
        },
      )
    ]
  ]
