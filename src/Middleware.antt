-- ===== src/Middleware.antt =====
-- backend/internal/middleware: which caller the rate limiter counts a request against, and what it
-- answers.
pub mod ClientIp
pub mod RateLimit
