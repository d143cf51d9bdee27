-- ===== src/Intake.antt =====
-- What happens to a file before it becomes a document: the check of its type, the scan for malware
-- and the reading in chunks.
pub mod Validation
pub mod Chunks
pub mod Malware
