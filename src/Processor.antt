-- ===== src/Processor.antt =====
-- src/application/movie-reservations/in-process-reservation-request-processor.ts
pub mod World
pub mod Steps
pub mod Runs
pub mod Calls
pub mod Jobs
pub mod Triples
pub mod Stored
pub mod Settled
pub mod Handed
pub mod Reported
pub mod Retried
pub mod Attempted
pub mod Reports
pub mod Progress
