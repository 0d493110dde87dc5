-- ===== src/Tests.antt =====
-- Two users, with and without a transfer between them, and a configured server: runs, and the
-- theorems at these states.
mod Data
mod Libraries
mod Auth
mod Handlers
mod Server
mod Runs
mod Examples
mod Witnesses
mod Accounts
mod Stale
