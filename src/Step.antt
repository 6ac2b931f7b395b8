-- ===== src/Step.antt =====
-- internal/step/step.go: the step plugin, which starts a run and then polls it until it ends.
-- `Types` has its data, `Config` the parsing of its input, `Plugin` the three calls.
pub mod Api
pub mod Types
pub mod Config
pub mod Plugin
pub mod Traced
pub mod Ends
pub mod Protocol
pub mod Starts
pub mod Phases
pub mod Resumed
pub mod Reconcile
pub mod Control
pub mod Orphan
pub mod Deadline
