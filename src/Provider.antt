-- ===== src/Provider.antt =====
-- internal/provider: the interface of a backend, the configuration and the router.
pub mod Errors
pub mod Config
pub mod Interface
pub mod Router
pub mod Mock
