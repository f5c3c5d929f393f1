-- ===== src/Cache.antt =====
-- The cache: the `Driver` interface of internal/cache/cache.go, what its clients rely on, and the
-- driver in memory, internal/cache/memory.go.
pub mod Driver
pub mod Memory
pub mod Laws
pub mod Patterns
mod Tests
