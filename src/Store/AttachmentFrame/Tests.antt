-- ===== src/Store/AttachmentFrame/Tests.antt =====
-- A framed text file.
use fin_bit.Prelude.{◌≡◌, ◌<◌, ◌^◌, refl, [], ◌∷◌, some, Bytes, length, arith}
use fin_bit.Store.AttachmentFrame.{
  AttachmentFrame, frame_attachment, parse_attachment_frame, truncated, is_framed_attachment,
  has_magic, get_field,
}
use fin_bit.Store.AttachmentFrame.Laws as Laws
use fin_bit.Store.AttachmentFrame.Parsing as Parsing

abbrev note : AttachmentFrame
note = record { mime = 116 ∷ 120 ∷ []; filename = 97 ∷ []; content = 1 ∷ 2 ∷ 3 ∷ [] }

abbrev framed_note : Bytes
framed_note = 0 ∷ 70 ∷ 66 ∷ 65 ∷ 84 ∷ 49 ∷ 0 ∷ 0 ∷ 2 ∷ 116 ∷ 120 ∷ 0 ∷ 1 ∷ 97 ∷ 1 ∷ 2 ∷ 3 ∷ []

parse_attachment_frame-frame_attachment_example :
    parse_attachment_frame (frame_attachment note.mime note.filename note.content) ≡ some note
unfolding truncated
parse_attachment_frame-frame_attachment_example =
    Laws.parse_attachment_frame-frame_attachment note.mime note.filename note.content

frame_attachment-parse_attachment_frame_example :
    (frame_attachment note.mime note.filename note.content ≡ framed_note)
    × (length note.mime < 2 ^ 16)
    × (length note.filename < 2 ^ 16)
unfolding parse_attachment_frame is_framed_attachment has_magic get_field
frame_attachment-parse_attachment_frame_example =
    Parsing.frame_attachment-parse_attachment_frame framed_note note (omega arith) refl
