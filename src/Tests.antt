-- ===== src/Tests.antt =====
-- The library at concrete inputs.
pub mod Fixtures
pub mod Claims
pub mod Store
pub mod Postgres
pub mod Database
pub mod Repository
pub mod Adapters
pub mod Polling
pub mod Values
pub mod Workers
pub mod Edges
