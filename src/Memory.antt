-- ===== src/Memory.antt =====
-- src/infrastructure/repositories/in-memory: the store that the adapters share, and the adapters.
pub mod Store
pub mod Invariant
pub mod Save
pub mod Owned
pub mod Heartbeat
pub mod Eligible
pub mod Scan
pub mod Fifo
pub mod Effect
pub mod Runs
pub mod Lifecycle
pub mod History
pub mod Exclusive
pub mod Bookings
pub mod Lease
pub mod Race
pub mod Metadata
pub mod Claim
pub mod Settle
pub mod Lost
pub mod Reads
