-- ===== src/Tests.antt =====
-- Runs of the model on concrete data: for each conditional theorem of the development, a case in
-- which its conditions hold.
mod Queue
mod Rows
mod Log
mod Documents
mod Accounts
mod Passwords
mod Web
mod Files
mod Licenses
mod Reception
mod Targets
mod Channels
