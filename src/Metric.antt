-- ===== src/Metric.antt =====
-- The metric plugin, of internal/metric/metric.go.
pub mod Api
pub mod Types
pub mod Config
pub mod Plugin
pub mod Collect
pub mod Measure
pub mod Lifecycle
