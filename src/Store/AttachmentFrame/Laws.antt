-- ===== src/Store/AttachmentFrame/Laws.antt =====
-- Framing an attachment and reading it back.
use fin_bit.Prelude.{
  ℕ, ◌+◌, ◌^◌, ◌<◌, ◌≡◌, refl, sym, ap, ◌∙◌, [], ◌∷◌, ◌++◌, append_assoc, some, true, Bytes, be16,
  read16-be16, length, length-append, length-take, get_or-append_right, drop, take-length-append,
  drop-append_right, ltb, arith, Bool-cases, inl, inr,
}
use fin_bit.Store.AttachmentFrame.{
  magic, put_u16, has_magic, is_framed_attachment, truncated, frame_attachment, get_field,
  parse_attachment_frame,
}

-- A field: its length, then its bytes.
abbrev pub field : Bytes → Bytes
field s = be16 (length s) ++ s

get_field-append :
    (before s after : Bytes) (n : ℕ)
    → n ≡ length before
    → length s < 2 ^ 16
    → get_field (before ++ (field s ++ after)) n ≡ some (s, n + 2 + length s)
unfolding get_field
get_field-append before s after n e h =
    let blob : Bytes = before ++ (field s ++ after) in
    rw (get_or-append_right before (field s ++ after) 0 n 0 (omega arith)) (
      rw (get_or-append_right before (field s ++ after) 1 (n + 1) 0 (omega arith)) (
        rw (drop-append_right before (field s ++ after) 2 (n + 2) (omega arith)) (
          rw (read16-be16 (length s) h) (
            ground (
              arith,
              length-append before (field s ++ after),
              length-append s after,
              take-length-append s after,
            )))))

length-truncated : (s : Bytes) → length (truncated s) < 2 ^ 16
unfolding truncated
length-truncated s = elim (Bool-cases (ltb 65535 (length s))) [
  | inl long ↦ rw (long, truncated) (omega (arith, length-take 65535 s))
  | inr short ↦ rw (short, truncated) (ground arith)
]

append_assoc4 : (a b c d : Bytes) → ((a ++ b) ++ c) ++ d ≡ a ++ (b ++ (c ++ d))
append_assoc4 a b c d = append_assoc (a ++ b) c d ∙ append_assoc a b (c ++ d)

pub frame_attachment-fields :
    (mime filename content : Bytes)
    → frame_attachment mime filename content
      ≡ magic ++ (field (truncated mime) ++ (field (truncated filename) ++ content))
unfolding frame_attachment put_u16
frame_attachment-fields mime filename content =
    ap (λ x. magic ++ (be16 (length (truncated mime)) ++ x))
      (append_assoc4 (truncated mime) (be16 (length (truncated filename))) (truncated filename)
        content)

has_magic-append : (ms rest : Bytes) → has_magic ms (ms ++ rest) ≡ true
unfolding has_magic
has_magic-append [] rest = refl
has_magic-append (m ∷ ms) rest = ground (arith, has_magic-append ms rest)

pub is_framed-magic : (rest : Bytes) → is_framed_attachment (magic ++ rest) ≡ true
unfolding is_framed_attachment
is_framed-magic rest = ground (arith, has_magic-append magic rest)

get_field-second :
    (m f content : Bytes)
    → length f < 2 ^ 16
    → get_field (magic ++ (field m ++ (field f ++ content))) (9 + length m)
      ≡ some (f, 9 + length m + 2 + length f)
get_field-second m f content h =
    get_field-append (magic ++ field m) f content (9 + length m) (omega arith) h

drop-fields :
    (m f content : Bytes)
    → drop (9 + length m + 2 + length f) (magic ++ (field m ++ (field f ++ content))) ≡ content
drop-fields m f content =
    ap (λ x. drop (9 + length m + 2 + length f) (magic ++ (be16 (length m) ++ x)))
      (sym (append_assoc m (field f) content))
    ∙ drop-append_right (magic ++ (field m ++ field f)) content 0 (9 + length m + 2 + length f)
        (omega (arith, length-append m (field f)))

-- A blob that starts with the magic number and two fields.
pub parse-fields :
    (m f content : Bytes)
    → length m < 2 ^ 16
    → length f < 2 ^ 16
    → parse_attachment_frame (magic ++ (field m ++ (field f ++ content)))
      ≡ some (record { mime = m; filename = f; content = content })
unfolding parse_attachment_frame
parse-fields m f content hm hf = rw (is_framed-magic (field m ++ (field f ++ content))) (
    rw (get_field-append magic m (field f ++ content) 7 refl hm, parse_attachment_frame)
      (rw (get_field-second m f content hf) (rw (drop-fields m f content) refl)))

-- What was framed is parsed again, with the MIME type and the name cut to 65535 bytes.
pub parse_attachment_frame-frame_attachment :
    (mime filename content : Bytes)
    → parse_attachment_frame (frame_attachment mime filename content)
      ≡ some (record { mime = truncated mime; filename = truncated filename; content = content })
parse_attachment_frame-frame_attachment mime filename content =
    ap (λ b. parse_attachment_frame b) (frame_attachment-fields mime filename content)
    ∙ parse-fields (truncated mime) (truncated filename) content (length-truncated mime)
        (length-truncated filename)
