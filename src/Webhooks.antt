-- ===== src/Webhooks.antt =====
-- Outgoing webhooks: internal/service/webhook_worker.go and internal/service/webhook.go over the tables of
-- webhooks and of deliveries and over the queue.
pub mod Delivery
pub mod Repository
pub mod Worker
pub mod Service
pub mod Manage
pub mod Validated
pub mod Bounded
pub mod Found
pub mod WorkerBound
pub mod ReaperBound
pub mod Histories
pub mod Verdict
pub mod Named
pub mod Runs
pub mod Exhaustion
pub mod RateLimiter
pub mod SlidingWindow
mod Tests
mod LimiterTests
