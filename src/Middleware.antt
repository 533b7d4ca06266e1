-- ===== src/Middleware.antt =====
-- pkg/middleware/: the rate limiter.
pub mod RateLimit
