-- ===== src/Tests.antt =====
-- Runs of the theorems and of the definitions on small inputs.
mod Strings
mod Storage
mod Services
mod Channels
mod Network
mod Chanserv
mod Memos
mod Records
mod Access
mod Requests
