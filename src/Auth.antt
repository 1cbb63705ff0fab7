-- ===== src/Auth.antt =====
-- Authentication (apps/server/src/auth): the rate limiter and its store.
pub mod Entry
pub mod RateLimitStore
pub mod RateLimit
mod Tests
