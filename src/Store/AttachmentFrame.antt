-- ===== src/Store/AttachmentFrame.antt =====
-- core/src/store/attachment_frame.cpp: the MIME type and the name of an attachment, in front of
-- its content.
use fin_bit.Prelude.{
  ℕ, ◌+◌, ◌*◌, ◌≡◌, refl, List, [], ◌∷◌, ◌++◌, Option, none, some, Bool, true, false, ◌&&◌, Bytes,
  be16, read16, length, get_or, take, drop, ltb, leb, eqb, if◌then◌else◌, not,
}
pub mod Laws
pub mod Parsing
mod Tests

-- `{0x00, 'F', 'B', 'A', 'T', '1', 0x00}`
abbrev pub magic : Bytes
magic = 0 ∷ 70 ∷ 66 ∷ 65 ∷ 84 ∷ 49 ∷ 0 ∷ []

abbrev pub magic_len : ℕ
magic_len = 7

pub record AttachmentFrame : Type 0 where
  pub mime : Bytes
  pub filename : Bytes
  pub content : Bytes

unfoldable pub put_u16 : Bytes → ℕ → Bytes
put_u16 out v = out ++ be16 v

-- The loop over the magic number, from the place it has reached.
unfoldable pub has_magic : Bytes → Bytes → Bool
has_magic [] blob = true
has_magic (m ∷ ms) [] = false
has_magic (m ∷ ms) (b ∷ blob) = if eqb b m then has_magic ms blob else false

unfoldable pub is_framed_attachment : Bytes → Bool
unfolding has_magic
is_framed_attachment blob = if ltb (length blob) magic_len then false else has_magic magic blob

-- `if (s.size() > 0xFFFF) s = s.substr(0, 0xFFFF);`
unfoldable pub truncated : Bytes → Bytes
truncated s = if ltb 65535 (length s) then take 65535 s else s

unfoldable pub frame_attachment : Bytes → Bytes → Bytes → Bytes
unfolding put_u16 truncated
frame_attachment mime filename content =
    let out = put_u16 magic (length (truncated mime)) ++ truncated mime in
    (put_u16 out (length (truncated filename)) ++ truncated filename) ++ content

-- `need(2)`, `get_u16`, `need(len)` and `assign`: a field and the offset after it.
unfoldable pub get_field : Bytes → ℕ → Option (Bytes × ℕ)
get_field blob off =
    let len = read16 (get_or blob off 0) (get_or blob (off + 1) 0) in
    if not (leb (off + 2) (length blob))
    then none
    else (if not (leb (off + 2 + len) (length blob))
        then none
        else some (take len (drop (off + 2) blob), off + 2 + len))

unfoldable pub parse_attachment_frame : Bytes → Option AttachmentFrame
unfolding is_framed_attachment get_field
parse_attachment_frame blob =
    if not (is_framed_attachment blob) then none else elim (get_field blob magic_len) [
      | none ↦ none
      | some m ↦ elim (get_field blob m.1) [
        | none ↦ none
        | some f ↦ some (record { mime = m.0; filename = f.0; content = drop f.1 blob })
      ]
    ]
