-- ===== src/Rest.antt =====
-- The guards of the REST interface (src/api/rest): the rate limiter, the replay guard and
-- idempotency keys.
pub mod Guard
pub mod Http
pub mod Path
pub mod Metrics
pub mod Router
pub mod RateLimit
pub mod Replay
pub mod Idempotency
