-- ===== src/Store.antt =====
-- core/src/store: the framing of attachments.
pub mod AttachmentFrame
