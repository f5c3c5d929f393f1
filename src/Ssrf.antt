-- ===== src/Ssrf.antt =====
-- Outbound requests: internal/ssrf, which keeps them away from internal addresses.
pub mod Address
pub mod Validator
pub mod Transport
pub mod Settings
pub mod Ranges
pub mod Wired
pub mod Hosts
pub mod Dialing
mod Tests
