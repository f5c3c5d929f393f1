-- ===== src/Lib.antt =====
-- The Go API of this repository: a model of its core services, and the theorems about them.
--
-- The program is an HTTP API. Handlers call services (internal/service), which call repositories
-- (internal/repository) over Redis and SQL tables; workers in the background share those stores, and a
-- cache (internal/cache) carries locks and counters. What is modelled:
--
-- Errors: pkg/errors/errors.go.
-- Jobs: the queue of background jobs. Jobs/Job is internal/domain/job.go, Jobs/Repository is
--   internal/repository/job.go over the interface Jobs/Redis of the Redis commands it sends,
--   Jobs/Service is internal/service/job.go, Jobs/Worker is internal/service/job_worker.go and Jobs/Reaper
--   is internal/service/job_reaper.go. Users submit, cancel and resubmit; pollers and workers claim, run
--   and settle; the reaper releases jobs whose worker is gone. All of them write the one store. The
--   handlers of jobs are any function of the type, the payload and a state of their own.
-- Cache: internal/cache/cache.go and internal/cache/memory.go.
-- RateLimit: internal/http/middleware/auth_rate_limit.go, a client of the cache.
-- Idempotency: internal/http/middleware/idempotency.go over the cache and a table of records.
--   Idempotency/Recorder is its writer, Idempotency/Record is internal/domain/idempotency.go,
--   internal/repository/idempotency.go and internal/service/idempotency.go, Idempotency/Request has the
--   keys and settings of the middleware, Idempotency/Middleware is the middleware and Idempotency/Store
--   its storeResult. The handler behind it is any function of the request and of the state of the
--   application.
-- Ssrf: the guard of outbound requests. Ssrf/Address is what it uses of Go's package net,
--   Ssrf/Validator is internal/ssrf/validator.go and internal/ssrf/config.go, Ssrf/Transport is
--   internal/ssrf/transport.go, and Ssrf/Settings is internal/config/ssrf.go.
-- Webhooks: Webhooks/Delivery is internal/domain/webhook.go, Webhooks/Repository is
--   internal/repository/webhook.go with the interfaces to the queue, the limiter and the receivers,
--   Webhooks/Worker is internal/service/webhook_worker.go and Webhooks/Service is the dispatch of
--   internal/service/webhook.go, Webhooks/Manage its management of webhooks. Webhooks/RateLimiter is
--   internal/service/webhook_rate_limiter.go.
-- Sql: the tables that the repositories reach through GORM, an interface of statements with laws.
--   Sql/Memory is a table in memory that has them.
-- Sessions: Sessions/Token is internal/domain/refresh_token.go and
--   internal/domain/password_reset_token.go, Sessions/Repository is internal/repository/refresh_token.go,
--   internal/repository/password_reset_token.go and a part of internal/repository/user.go,
--   Sessions/Service and Sessions/Recovery are internal/service/auth.go. Its tables share one
--   database, and a statement on one leaves the rows of the others. Sessions/Kept and Sessions/Calls say
--   which properties of that database all these calls keep.
-- TwoFactor: TwoFactor/Ciphers is internal/service/two_factor_crypto.go and
--   internal/service/two_factor_recovery.go, TwoFactor/Codes is the table of recovery codes, and
--   TwoFactor/Service and TwoFactor/Login are internal/service/two_factor.go, over the tables of Sessions.
-- Organizations: Organizations/Organization is internal/domain/organization.go,
--   internal/domain/organization_member.go and internal/repository/organization.go, with the interface to
--   internal/permission/enforcer.go, and Organizations/Service is internal/service/organization.go.
-- News: News/Article is internal/domain/news.go, and News/Service is internal/service/news.go over
--   internal/repository/news.go.
--
-- A method of the program is a function from its arguments, the instants at which it reads the clock
-- and the state to an outcome and the state after it (Prelude/Outcome). A method keeps the name of the
-- source in snake_case; where it reads first and goes on with what it has read, the rest is a function of
-- its own, as claim_job for SetProcessing. Redis is an interface with laws: a command that fails
-- reports it and one that does not has its documented effect. Jobs/Memory is a server that has these
-- laws. Identifiers are numbers, instants are in nanoseconds, and the retry delay wraps as an int64
-- does. There is no fuel but for the digits of a number
-- in Prelude/Bytes, which the number bounds, and the eight recovery codes: every other loop is over a
-- list.
--
-- Not modelled: logging, tracing, HTTP and JSON encoding, the tickers and channels around the workers,
-- and the services that the manifest lists as such.
pub mod Prelude
pub mod Errors
pub mod Jobs
pub mod Cache
pub mod RateLimit
pub mod Sql
pub mod Sessions
pub mod News
pub mod Idempotency
pub mod Ssrf
pub mod Webhooks
pub mod TwoFactor
pub mod Organizations
