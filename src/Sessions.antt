-- ===== src/Sessions.antt =====
-- Accounts and sessions: internal/service/auth.go and the repositories under it.
pub mod Token
pub mod Repository
pub mod Service
pub mod Recovery
pub mod Effects
pub mod Families
pub mod Rotated
pub mod Issuing
pub mod Histories
pub mod Revocation
pub mod Resets
pub mod Requests
pub mod Spent
pub mod Kept
pub mod Calls
pub mod Races
mod Tests
