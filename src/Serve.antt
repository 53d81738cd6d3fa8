-- ===== src/Serve.antt =====
-- src/serve.rs: the HTTP API over the store.
pub mod Query
pub mod InFlight
pub mod Static
pub mod Routes
