-- ===== src/Tests.antt =====
-- Concrete runs of the theorems, with small stand-ins for what the program calls.
mod Fixtures
mod Steps
mod Backends
mod Routes
mod Measures
mod Clouds
mod Protocols
mod Executables
mod Objects
mod Aborts
mod Crowds
mod Servers
