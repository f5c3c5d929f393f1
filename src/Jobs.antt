-- ===== src/Jobs.antt =====
-- The background job queue: internal/domain/job.go, internal/repository/job.go and the services
-- internal/service/job.go, job_worker.go and job_reaper.go.
pub mod Job
pub mod Redis
pub mod Repository
pub mod Service
pub mod Worker
pub mod Reaper
pub mod Effects
pub mod Outcomes
pub mod Index
pub mod Reads
pub mod Reach
pub mod ServiceOutcomes
pub mod Claims
pub mod Opening
pub mod Processing
pub mod Transitions
pub mod Backoff
pub mod Recovery
mod Memory
mod Tests
