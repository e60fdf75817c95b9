-- ===== src/Net/WebSocket/Laws.antt =====
-- Frames that were built are parsed again.
use fin_bit.Prelude.{
  ℕ, suc, ◌+◌, ◌/◌, ◌%◌, ◌^◌, ◌≤◌, ◌<◌, ◌≡◌, refl, sym, ap, ◌∙◌, ◌∷◌, ◌++◌, some, Bool, true, false,
  ◌&&◌, not, Bytes, IsBytes, byte_at, be64, read16, read64, read16-be16, length, length-append,
  get_or, get_or-append_right, take, drop, drop-append_right, take-length-append,
  drop-length-append, ltb, leb, eqb, if◌then◌else◌, arith, Bool-cases, inl, inr, append_assoc,
}
use fin_bit.Net.WebSocket.{max_message_bytes, Mask, apply_mask, length_field}
use fin_bit.Net.WebSocket.Masking.{apply_mask_twice, apply_mask-no_mask, length-apply_mask}
use fin_bit.Net.WebSocket.Parser.{FrameParser, payload_length, dispatch, mask_at, turn}

read64-be64 : (a b v : ℕ) (tail : Bytes) → v < 2 ^ 64 → read64 (a ∷ b ∷ (be64 v ++ tail)) 2 ≡ v
read64-be64 a b v tail h = omega arith

-- The length field after a first byte, and whatever follows.
payload_length-length_field :
    (flag first len : ℕ) (tail : Bytes)
    → flag % 128 ≡ 0
    → len < 2 ^ 64
    → payload_length (first ∷ (length_field flag len ++ tail))
      ≡ some (len, 1 + length (length_field flag len))
unfolding payload_length length_field
payload_length-length_field flag first len tail f h = elim (Bool-cases (ltb len 126)) [
  | inl short ↦ rw (short, length_field) (ground arith)
  | inr long ↦ elim (Bool-cases (leb len 65535)) [
    | inl medium ↦
        let is_126 : (flag + 126) % 128 ≡ 126 = omega arith in
        let back : read16 (byte_at len 8) (byte_at len 0) ≡ len = read16-be16 len (ground arith) in
        rw (long, medium, length_field) (ground arith)
    | inr huge ↦
        let is_127 : (flag + 127) % 128 ≡ 127 = omega arith in
        rw (long, huge, length_field)
          (rw (read64-be64 first (flag + 127) len tail h, payload_length) (ground arith))
  ]
]

length_field-flag :
    (flag first len : ℕ) (tail : Bytes)
    → flag % 128 ≡ 0
    → (get_or (first ∷ (length_field flag len ++ tail)) 1 0 / 128 % 2 ≡ flag / 128 % 2)
      × (1 ≤ length (length_field flag len))
unfolding length_field
length_field-flag flag first len tail f = elim (Bool-cases (ltb len 126)) [
  | inl short ↦ rw (short, length_field) (ground arith, omega arith)
  | inr long ↦ elim (Bool-cases (leb len 65535)) [
    | inl medium ↦ rw (long, medium, length_field) (omega arith, omega arith)
    | inr huge ↦ rw (long, huge, length_field) (omega arith, omega arith)
  ]
]

-- A masked frame with the first byte `first`, as RFC 6455 lays it out.
abbrev pub masked_frame : ℕ → Mask → Bytes → Bytes
masked_frame first m payload =
    first
    ∷ (length_field 128 (length payload) ++ (m.b0 ∷ m.b1 ∷ m.b2 ∷ m.b3 ∷ apply_mask m payload))

abbrev pub unmasked_frame : ℕ → Bytes → Bytes
unmasked_frame first payload = first ∷ (length_field 0 (length payload) ++ payload)

drop_key :
    (first : ℕ) (field body rest : Bytes) (a b c d len : ℕ)
    → len ≡ length body
    → (drop (1 + length field + 4) (first ∷ (field ++ (a ∷ b ∷ c ∷ d ∷ (body ++ rest))))
        ≡ body ++ rest)
      × (drop (1 + length field + 4 + len) (first ∷ (field ++ (a ∷ b ∷ c ∷ d ∷ (body ++ rest))))
          ≡ rest)
drop_key first field body rest a b c d len e = (
  drop-append_right (first ∷ field) (a ∷ b ∷ c ∷ d ∷ (body ++ rest)) 4 (1 + length field + 4)
      (omega arith),
  drop-append_right (first ∷ field) (a ∷ b ∷ c ∷ d ∷ (body ++ rest)) (suc (suc (suc (suc len))))
        (1 + length field + 4 + len) (omega arith)
      ∙ rw e (drop-length-append body rest),
)

mask_at-key :
    (first : ℕ) (field tail : Bytes) (m : Mask)
    → mask_at true (first ∷ (field ++ (m.b0 ∷ m.b1 ∷ m.b2 ∷ m.b3 ∷ tail))) (1 + length field) ≡ m
mask_at-key first field tail m =
    let t : Bytes = m.b0 ∷ m.b1 ∷ m.b2 ∷ m.b3 ∷ tail in
    let n : ℕ = 1 + length field in
    rw (get_or-append_right (first ∷ field) t 0 n 0 (omega arith)) (
      rw (get_or-append_right (first ∷ field) t 1 (n + 1) 0 (omega arith)) (
        rw (get_or-append_right (first ∷ field) t 2 (n + 2) 0 (omega arith))
          (rw (get_or-append_right (first ∷ field) t 3 (n + 3) 0 (omega arith)) refl)))

abbrev pub fin_of : ℕ → Bool
fin_of first = eqb (first / 128 % 2) 1

take_body :
    (m : Mask) (payload rest : Bytes)
    → IsBytes payload
    → apply_mask m (take (length payload) (apply_mask m payload ++ rest)) ≡ payload
take_body m payload rest b =
    ap (λ n. apply_mask m (take n (apply_mask m payload ++ rest)))
      (sym (length-apply_mask m payload))
    ∙ ap (λ t. apply_mask m t) (take-length-append (apply_mask m payload) rest)
    ∙ apply_mask_twice m payload b

-- A turn in which the whole frame is there, in the right direction and not too large.
turn_whole :
    (p : FrameParser) (masked : Bool) (len header_len : ℕ)
    → ltb (length p.buf) 2 ≡ false
    → eqb (get_or p.buf 1 0 / 128 % 2) 1 ≡ masked
    → (p.expect_masked && not masked) ≡ false
    → payload_length p.buf ≡ some (len, header_len)
    → ltb max_message_bytes len ≡ false
    → ltb (length p.buf) (header_len + (if masked then 4 else 0) + len) ≡ false
    → turn p
      ≡ dispatch
          (fin_of (get_or p.buf 0 0))
          (get_or p.buf 0 0 % 16)
          (apply_mask
            (mask_at masked p.buf header_len)
            (take len (drop (header_len + (if masked then 4 else 0)) p.buf)))
          (record p { buf = drop (header_len + (if masked then 4 else 0) + len) p.buf })
unfolding turn
turn_whole p masked len header_len two direction expected size small whole =
    rw (two, turn)
      (rw (direction, turn)
        (rw (expected, turn)
          (rw (size, turn) (rw (small, turn) (rw direction (rw (whole, turn) refl))))))

-- A masked frame at the front of the buffer is unmasked and dispatched, whatever follows it.
pub turn-masked_frame :
    (p : FrameParser) (first : ℕ) (m : Mask) (payload rest : Bytes)
    → IsBytes payload
    → length payload ≤ max_message_bytes
    → turn (record p { buf = masked_frame first m payload ++ rest })
      ≡ dispatch (fin_of first) (first % 16) payload (record p { buf = rest })
turn-masked_frame p first m payload rest b h =
    let len : ℕ = length payload in
    let field : Bytes = length_field 128 len in
    let body : Bytes = apply_mask m payload in
    let tail : Bytes = m.b0 ∷ m.b1 ∷ m.b2 ∷ m.b3 ∷ (body ++ rest) in
    let buf : Bytes = first ∷ (field ++ tail) in
    let flags = length_field-flag 128 first len tail refl in
    let size : length buf ≡ 1 + length field + 4 + len + length rest =
      omega
        (arith, length-append field tail, length-append body rest, length-apply_mask m payload) in
    let drops =
      drop_key first field body rest m.b0 m.b1 m.b2 m.b3 len (sym (length-apply_mask m payload)) in
    ap (λ t. turn (record p { buf = first ∷ t }))
      (append_assoc field (m.b0 ∷ m.b1 ∷ m.b2 ∷ m.b3 ∷ body) rest)
    ∙ turn_whole (record p { buf = buf }) true len (1 + length field)
        (ground (arith, size, flags.1)) (ground (arith, flags.0)) (ground arith)
        (payload_length-length_field 128 first len tail refl (omega arith)) (ground arith)
        (ground (arith, size))
    ∙ rw (mask_at-key first field (body ++ rest) m)
        (rw drops.0 (rw drops.1 (rw (take_body m payload rest b) refl)))

-- The same for an unmasked frame and a parser that takes those.
pub turn-unmasked_frame :
    (p : FrameParser) (first : ℕ) (payload rest : Bytes)
    → IsBytes payload
    → length payload ≤ max_message_bytes
    → p.expect_masked ≡ false
    → turn (record p { buf = unmasked_frame first payload ++ rest })
      ≡ dispatch (fin_of first) (first % 16) payload (record p { buf = rest })
turn-unmasked_frame p first payload rest b h allowed =
    let len : ℕ = length payload in
    let field : Bytes = length_field 0 len in
    let tail : Bytes = payload ++ rest in
    let buf : Bytes = first ∷ (field ++ tail) in
    let flags = length_field-flag 0 first len tail refl in
    let size : length buf ≡ 1 + length field + len + length rest =
      omega (arith, length-append field tail, length-append payload rest) in
    let body_at : drop (1 + length field + 0) buf ≡ tail =
      drop-append_right (first ∷ field) tail 0 (1 + length field + 0) (omega arith) in
    let rest_at : drop (1 + length field + 0 + len) buf ≡ rest =
      drop-append_right (first ∷ field) tail len (1 + length field + 0 + len) (omega arith)
      ∙ drop-length-append payload rest in
    ap (λ t. turn (record p { buf = first ∷ t })) (append_assoc field payload rest)
    ∙ turn_whole (record p { buf = buf }) false len (1 + length field)
        (ground (arith, size, flags.1)) (ground (arith, flags.0)) (ground arith)
        (payload_length-length_field 0 first len tail refl (omega arith)) (ground arith)
        (ground (arith, size))
    ∙ rw body_at
        (rw rest_at (rw (take-length-append payload rest) (rw (apply_mask-no_mask payload b) refl)))
