-- ===== src/Cmd.antt =====
-- cmd/metric-plugin/main.go and cmd/step-plugin/main.go: the two executables.
pub mod Logging
pub mod Worlds
pub mod Wiring
pub mod Laws
pub mod Aborts
