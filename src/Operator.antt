-- ===== src/Operator.antt =====
-- internal/provider/operator: the backend that runs k6 inside the cluster.
pub mod Types
pub mod RunId
pub mod TestRun
pub mod ExitCode
pub mod Client
pub mod Summary
pub mod Plugin
