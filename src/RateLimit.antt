-- ===== src/RateLimit.antt =====
-- Rate limits of the authentication endpoints: internal/http/middleware/auth_rate_limit.go.
pub mod Limiter
pub mod Counting
mod Tests
