-- ===== src/Cloud.antt =====
-- The Grafana Cloud backend, of internal/provider/cloud.
pub mod Types
pub mod States
pub mod Metrics
pub mod Queries
pub mod Options
pub mod Plugin
pub mod Laws
