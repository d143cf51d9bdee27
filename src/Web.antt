-- ===== src/Web.antt =====
-- The web interface (src/document_core/api.py).
pub mod World
pub mod Access
pub mod Accounts
pub mod Jobs
pub mod Channels
pub mod AuditTrail
