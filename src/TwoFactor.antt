-- ===== src/TwoFactor.antt =====
-- Two-factor authentication: internal/service/two_factor.go with its ciphers and recovery codes.
pub mod Ciphers
pub mod Codes
pub mod Service
pub mod Login
pub mod Verified
pub mod Once
pub mod Pending
pub mod Recovery
pub mod Regenerated
pub mod Setup
mod Memory
mod Tests
