-- ===== src/Limiter.antt =====
-- gateway/limiter.go: the two limiters.
pub mod Concurrency
pub mod Duration
