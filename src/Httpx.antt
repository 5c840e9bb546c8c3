-- ===== src/Httpx.antt =====
-- internal/httpx: the middleware around the handlers.
pub mod Logging
pub mod RateLimit
pub mod LimitBody
