-- ===== src/Store.antt =====
-- The SQL repository (src/document_core/store.py): one table to a module, each method one
-- transaction, which is a function from the table before it to the table after it.
pub mod Jobs
pub mod Events
pub mod Settings
pub mod Audit
pub mod Targets
pub mod Rules
pub mod Database
pub mod Users
pub mod Channels
pub mod Heartbeats
