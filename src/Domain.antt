-- ===== src/Domain.antt =====
-- src/domain: the identifiers, the catalog, the requests and the reservations.
pub mod Ids
pub mod Seats
pub mod Catalog
pub mod Request
pub mod Reservation
