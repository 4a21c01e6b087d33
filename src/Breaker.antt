-- ===== src/Breaker.antt =====
-- The Redis circuit breaker, src/config/redisCircuitBreaker.ts: configuration, rolling window,
-- state machine, and the guarded calls that run through it.
pub mod Config
pub mod Window
pub mod Machine
pub mod Calls
pub mod Tests
