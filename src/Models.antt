-- ===== src/Models.antt =====
-- The records of src/document_core/models.py. A date is the number of microseconds since the
-- epoch, a path is its text, and the bounds of the fields are checked where a request is read.
pub mod Job
pub mod Target
pub mod Audit
pub mod User
