-- ===== src/Core.antt =====
-- app/core: the settings and the metric counters.
pub mod Config
pub mod Metrics
mod Tests
