-- ===== src/Secrets.antt =====
-- Connector secrets (src/document_core/secrets.py): the redaction of known secrets.
pub mod Redaction
pub mod Cipher
