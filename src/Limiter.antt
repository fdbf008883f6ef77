-- ===== src/Limiter.antt =====
-- The limiter before every request: backend/middleware/rate_limiter.py.
pub mod Dispatch
pub mod Passed
mod Tests
