-- ===== src/RateLimit.antt =====
-- Rate limiting: src/robustRateLimiter.ts and src/middleware/advancedLimiter.ts.
pub mod Robust
pub mod Login
