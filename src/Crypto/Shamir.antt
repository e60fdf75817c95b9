-- ===== src/Crypto/Shamir.antt =====
-- core/src/crypto/shamir.cpp: a secret shared byte by byte over the field of 256 elements. The random
-- coefficients are an argument of `split`: `random b n` are the n bytes that `randombytes_buf` writes
-- for the byte b of the secret. `ensure_sodium` has no counterpart.
use fin_bit.Prelude.{
  ℕ, zero, suc, ◌+◌, ◌-◌, ◌*◌, ◌/◌, ◌%◌, ◌^◌, List, [], ◌∷◌, Option, none, some, Bool, true, false,
  ◌||◌, Bytes, map, length, get_or, set, replicate, eqb, ltb, if◌then◌else◌, xor_bits, byte_xor,
}
use fin_bit.Prelude.Result.{Result, ok, err, ◌>>=◌}
pub mod Tables
pub mod Product
pub mod Algebra
pub mod Lagrange
pub mod Interpolation
pub mod ByteField
pub mod Loops
pub mod Splitting
pub mod Recovery
pub mod Fitting
pub mod Coordinates
pub mod Secrecy
pub mod Encoding
mod Tests

-- `ShamirError`, told apart by its message.
pub data ShamirError : Type 0 where
  divide_by_zero invalid_share too_short zero_coordinate empty_secret bad_threshold no_shares
        empty_payload length_mismatch duplicate_coordinate :
      ShamirError

pub record GfTables : Type 0 where
  pub log_table : Bytes
  pub exp_table : Bytes

-- Bit 8 of a 16-bit number is taken off with the polynomial.
abbrev pub reduce : ℕ → ℕ
reduce y = if eqb (y / 256 % 2) 1 then xor_bits 16 y 0x11b else y

-- The next power of 3.
unfoldable pub times_three : ℕ → ℕ
times_three x = let y2 = reduce (x * 2 % 2 ^ 16) in reduce (xor_bits 16 y2 x) % 256

unfoldable pub fill_tables : ℕ → ℕ → ℕ → GfTables → GfTables
unfolding times_three
fill_tables zero i x t = t
fill_tables (suc n) i x t =
    fill_tables n (suc i) (times_three x)
      (record { log_table = set t.log_table x i; exp_table = set t.exp_table i x })

unfoldable pub gf : GfTables
unfolding fill_tables
gf =
    let zeros = replicate 256 0 in
    let t = fill_tables 255 0 1 (record { log_table = zeros; exp_table = zeros }) in
    record t { exp_table = set t.exp_table 255 (get_or t.exp_table 0 0) }

unfoldable pub log : ℕ → ℕ
unfolding gf
log a = get_or gf.log_table a 0

unfoldable pub exp : ℕ → ℕ
unfolding gf
exp i = get_or gf.exp_table i 0

unfoldable pub gf_mul : ℕ → ℕ → ℕ
unfolding log exp
gf_mul a b = if eqb a 0 || eqb b 0 then 0 else exp ((log a + log b) % 255)

unfoldable pub gf_div : ℕ → ℕ → Result ShamirError ℕ
unfolding log exp
gf_div a b =
    if eqb a 0
    then ok 0
    else (if eqb b 0 then err divide_by_zero else ok (exp ((log a + 255 - log b) % 255)))

-- Horner's method: the loop starts at the last coefficient. There is always one.
unfoldable pub gf_eval : Bytes → ℕ → ℕ
unfolding gf_mul
gf_eval [] x = 0
gf_eval (c ∷ []) x = c
gf_eval (c ∷ d ∷ coeffs) x = byte_xor (gf_mul (gf_eval (d ∷ coeffs) x) x) c

pub record Share : Type 0 where
  pub x : ℕ
  pub y : Bytes

unfoldable pub encode_share : Share → Result ShamirError Bytes
encode_share s = if eqb s.x 0 || eqb (length s.y) 0 then err invalid_share else ok (s.x ∷ s.y)

unfoldable pub decode_share : Bytes → Result ShamirError Share
decode_share [] = err too_short
decode_share (x ∷ []) = err too_short
decode_share (x ∷ b ∷ bytes) =
    if eqb x 0 then err zero_coordinate else ok (record { x = x; y = b ∷ bytes })

-- The shares from coordinate i + 1 on, before their bytes are known.
unfoldable pub blank_shares : ℕ → ℕ → ℕ → List Share
blank_shares size i zero = []
blank_shares size i (suc n) =
    record { x = (i + 1) % 256; y = replicate size 0 } ∷ blank_shares size (suc i) n

unfoldable pub put_byte : ℕ → Bytes → Share → Share
unfolding gf_eval
put_byte b coeffs s = record s { y = set s.y b (gf_eval coeffs s.x) }

unfoldable pub coefficients : (ℕ → ℕ → Bytes) → ℕ → ℕ → ℕ → Bytes
coefficients random threshold b byte =
    byte ∷ (if ltb 1 threshold then random b (threshold - 1) else [])

unfoldable pub split_bytes : (ℕ → ℕ → Bytes) → ℕ → Bytes → ℕ → List Share → List Share
unfolding put_byte coefficients
split_bytes random threshold [] b shares = shares
split_bytes random threshold (byte ∷ bytes) b shares =
    let coeffs = coefficients random threshold b byte in
    split_bytes random threshold bytes (suc b) (map (put_byte b coeffs) shares)

unfoldable pub split : (ℕ → ℕ → Bytes) → Bytes → ℕ → ℕ → Result ShamirError (List Share)
unfolding split_bytes blank_shares
split random secret threshold total =
    if eqb (length secret) 0
    then err empty_secret
    else (if eqb threshold 0 || eqb total 0 || ltb total threshold
        then err bad_threshold
        else ok (split_bytes random threshold secret 0 (blank_shares (length secret) 0 total)))

unfoldable pub has_coordinate : ℕ → List Share → Bool
has_coordinate x [] = false
has_coordinate x (s ∷ shares) = eqb x s.x || has_coordinate x shares

-- The first test that fails, in the order of the loops.
unfoldable pub check_shares : ℕ → List Share → Option ShamirError
unfolding has_coordinate
check_shares size [] = none
check_shares size (s ∷ shares) =
    let rest = check_shares size shares in
    if eqb s.x 0
    then some zero_coordinate
    else (if eqb (length s.y) size
        then (if has_coordinate s.x shares then some duplicate_coordinate else rest)
        else some length_mismatch)

-- The loop over j, from j on: `num` and `den`.
unfoldable pub products : ℕ → ℕ → List Share → ℕ → ℕ × ℕ → ℕ × ℕ
unfolding gf_mul
products i xi [] j acc = acc
products i xi (s ∷ shares) j (num, den) =
    products i xi shares (suc j)
      (if eqb i j then (num, den) else (gf_mul num s.x, gf_mul den (byte_xor xi s.x)))

-- The loop over i, from i on, for the byte b.
unfoldable pub interpolate : List Share → ℕ → ℕ → List Share → ℕ → Result ShamirError ℕ
unfolding products gf_mul gf_div
interpolate all b i [] acc = ok acc
interpolate all b i (s ∷ shares) acc =
    let (num, den) = products i s.x all 0 (1, 1) in
    gf_div num den >>= λ basis.
    interpolate all b (suc i) shares (byte_xor acc (gf_mul (get_or s.y b 0) basis))

-- The loop over the bytes, n of them from b on.
unfoldable pub combine_bytes : List Share → ℕ → ℕ → Result ShamirError Bytes
unfolding interpolate
combine_bytes shares b zero = ok []
combine_bytes shares b (suc n) = interpolate shares b 0 shares 0 >>= λ byte.
    combine_bytes shares (suc b) n >>= λ bytes. ok (byte ∷ bytes)

unfoldable pub combine : List Share → Result ShamirError Bytes
unfolding check_shares combine_bytes
combine [] = err no_shares
combine (s ∷ shares) =
    let size = length s.y in
    if eqb size 0 then err empty_payload else elim (check_shares size (s ∷ shares)) [
      | some why ↦ err why
      | none ↦ combine_bytes (s ∷ shares) 0 size
    ]
