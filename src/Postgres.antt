-- ===== src/Postgres.antt =====
-- src/infrastructure/repositories/postgres
pub mod Rows
pub mod Mappers
pub mod Checks
pub mod Tables
pub mod Shape
pub mod State
pub mod Claimer
pub mod Booking
pub mod Order
pub mod Held
pub mod Outcomes
pub mod Atomic
pub mod Confirm
pub mod Conflict
pub mod Unique
pub mod Fifo
pub mod Claims
pub mod Leases
pub mod Attempts
pub mod Catalog
pub mod Requests
pub mod Save
pub mod Availability
pub mod Saved
pub mod Beats
pub mod Agreement
pub mod Alike
pub mod Bounds
pub mod Seating
pub mod Simulation
