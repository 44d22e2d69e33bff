-- ===== src/Session.antt =====
-- internal/session, and the metrics hook of internal/metrics.
pub mod Model
pub mod Hook
pub mod Pool
