-- ===== src/Idempotency.antt =====
-- Idempotency keys: internal/http/middleware/idempotency.go over the cache and the table of records,
-- with internal/service/idempotency.go, internal/repository/idempotency.go and
-- internal/domain/idempotency.go.
pub mod Recorder
pub mod Record
pub mod Request
pub mod Middleware
pub mod Store
pub mod Replay
pub mod Written
pub mod Once
pub mod Capture
pub mod Keys
pub mod FailOpen
pub mod Stored
mod Codec
mod Tests
