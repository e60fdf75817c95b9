-- ===== src/Crypto/Padding.antt =====
-- core/src/crypto/padding.cpp: length hiding by padding to a ladder of bucket sizes.
-- `size() + 1` cannot wrap, since no vector holds 2 ^ 64 - 1 bytes.
use fin_bit.Prelude.{
  ℕ, zero, suc, ◌+◌, ◌-◌, ◌≡◌, List, [], ◌∷◌, Bool, true, false, Bytes, length, get_or, set, take,
  replicate, leb, eqb, if◌then◌else◌,
}
use fin_bit.Prelude.Result.{Result, ok, err}
pub mod Laws
mod Tests

-- `PaddingError`, told apart by its message.
pub data PaddingError : Type 0 where
  empty_ladder exceeds_largest empty_input no_marker bad_marker : PaddingError

abbrev pub default_padding_buckets : List ℕ
default_padding_buckets = 256 ∷ 1024 ∷ 4096 ∷ 16384 ∷ 65536 ∷ []

-- The loop that sets `target`: 0 when no bucket is large enough.
unfoldable pub pick_bucket : ℕ → List ℕ → ℕ
pick_bucket needed [] = 0
pick_bucket needed (b ∷ bs) = if leb needed b then b else pick_bucket needed bs

-- `std::copy` over the front of a vector.
unfoldable pub copy_over : Bytes → Bytes → Bytes
copy_over [] out = out
copy_over (x ∷ xs) [] = []
copy_over (x ∷ xs) (y ∷ out) = x ∷ copy_over xs out

fill : Bytes → ℕ → Bytes
unfolding copy_over
fill plaintext target = set (copy_over plaintext (replicate target 0)) (length plaintext) 0x80

unfoldable pub pad_to_bucket : Bytes → List ℕ → Result PaddingError Bytes
unfolding pick_bucket fill
pad_to_bucket plaintext [] = err empty_ladder
pad_to_bucket plaintext (b ∷ bs) =
    let target = pick_bucket (length plaintext + 1) (b ∷ bs) in
    if eqb target 0 then err exceeds_largest else ok (fill plaintext target)

unfoldable pub pad_to_default : Bytes → Result PaddingError Bytes
unfolding pad_to_bucket
pad_to_default plaintext = pad_to_bucket plaintext default_padding_buckets

-- `while (i > 0 && padded[i - 1] == 0x00) --i;`
unfoldable pub skip_zeros : Bytes → ℕ → ℕ
skip_zeros padded zero = zero
skip_zeros padded (suc i) = if eqb (get_or padded i 0) 0 then skip_zeros padded i else suc i

check_marker : Bytes → ℕ → Result PaddingError Bytes
check_marker padded zero = err no_marker
check_marker padded (suc i) =
    if eqb (get_or padded i 0) 0x80 then ok (take i padded) else err bad_marker

unfoldable pub strip_padding : Bytes → Result PaddingError Bytes
unfolding skip_zeros check_marker
strip_padding [] = err empty_input
strip_padding (x ∷ xs) = check_marker (x ∷ xs) (skip_zeros (x ∷ xs) (length (x ∷ xs)))
