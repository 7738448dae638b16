-- ===== src/Lib.antt =====
-- The movie reservation service: reservation requests are submitted, kept in a store, claimed by
-- workers in the order in which they came, and confirmed, rejected, retried or failed.
--
-- Domain (src/domain/movie-reservations): Domain/Ids models id-utils.ts (createNonEmptyId,
-- createUuidId), Domain/Catalog the catalog's records, Domain/Request and Domain/Seats
-- reservation-request.ts, -status.ts, -transitions.ts and -sequence.ts, Domain/Reservation
-- reservation.ts. Work holds the data that the processor and the repositories exchange
-- (src/application/movie-reservations).
--
-- Memory (src/infrastructure/repositories/in-memory): Memory/Store models
-- in-memory-movie-reservation.store.ts, one record for the class, its maps as lists of pairs in
-- insertion order; Memory/Claim, Memory/Settle and Memory/Metadata model
-- in-memory-reservation-request-work.repository.ts, one action of the state and error monad
-- (Prelude/Monad) for each method. The other modules under Memory hold the invariant and the proofs;
-- Memory/Effect has the step relation that the calls obey and the type of commands.
--
-- Processor (src/application/movie-reservations/in-process-reservation-request-processor.ts):
-- Processor/World has its state, ports and results, Processor/Steps its methods. Processor/Runs and
-- Processor/Calls reduce a call of it to repository commands. Processor/Triples has the rules with
-- which its results are followed to the store: Stored and Reported say what they mean there, Handed is
-- about the claim, Settled about the calls that end it, Attempted and Retried about the two ways
-- through a work item, and Reports about the whole call. Processor/Progress has what it achieves, and
-- Processor/Jobs runs many workers.
--
-- A JavaScript string is its list of UTF-16 code units. Counters and sequence numbers are natural
-- numbers; a sequence number is refused from 2 ^ 53 on, as in the source, and theorems on sequences
-- of calls ask that there is room for them. `Date` is a parameter (Dates), with one law: a time that
-- is printed is read back as the same time. Clock, generators, failure policy and observability are
-- parameters (Ports); what observability throws is part of the model, durations are not. Every loop
-- is structural recursion over a list, so no fuel is needed.
--
-- A call of a repository method runs without interruption, as the code between two suspensions does;
-- the one method that awaits before it writes, confirmClaimedReservationRequest, is split at the
-- await in Memory/Settle, and Memory/Race runs two of them across each other. In Processor/Jobs a
-- processor call runs to its end before the next job; the theorems on commands (Memory/History,
-- Memory/Bookings, Memory/Lease) are about any order of single repository calls.
--
-- The edges: Access models the reading policy (src/application/authorization and
-- src/application/authentication/actor-context.ts), Memory/Reads the catalog repository and the
-- availability reader, Service the use cases of movie-reservations.service.ts and
-- screening-availability.service.ts on them; Json the untrusted values, Claims
-- src/infrastructure/authentication (claims parser, JWT manager), Login
-- src/application/authentication/demo-login.service.ts, Audit/Response
-- packages/audit-sdk/src/eventbridge/inspect-put-events-response.ts, and Config src/config.ts after
-- zod has read the single fields. Token validation, the password verifier and the audit recorder are
-- parameters. Each module's Laws hold its theorems.
--
-- Postgres (src/infrastructure/repositories/postgres and src/infrastructure/database/migrations):
-- Postgres/Rows and Postgres/Mappers model postgres-mappers.ts; Postgres/Tables the tables, their
-- unique indexes, Postgres/Checks the check of the attempts in SQL's three truth values;
-- Postgres/State, Postgres/Claimer, Postgres/Booking the state store, the claimer, the reservation
-- store and the work repository, Postgres/Catalog and Postgres/Requests
-- postgres-movie-reservation.repository.ts, Postgres/Availability the availability reader. The
-- code's statements are read as SQL on the rows of a table: where is a filter, update a map, a
-- left join puts a null beside a row without a match. What driver and server decide is the record
-- Engine: that a transaction commits when its body resolves and rolls back when it rejects, the
-- time, how a timestamp column reads a text, which rows are locked, the next identity, the foreign
-- keys and the collation. A transaction is one step, as its row locks make it for the rows that it
-- writes. Rows of equal keys, whose order SQL leaves open, stay in the order of the table; only
-- screenings that start together are ordered so. Postgres/Shape compares the check with the
-- mapper, Postgres/Order has the laws of queries, Held and Outcomes those of the statements,
-- Atomic of the transactions; Confirm, Conflict and Unique are about confirmations, Fifo, Claims,
-- Leases and Bounds about claims, Beats about heartbeats, Attempts, Save and Saved about what is
-- read after a write, Seating about availability, and Agreement, Alike and Simulation relate the two
-- adapters.
--
-- FakeWorker (src/di/movie-reservations/fake-reservation-request-worker.service.ts): the fields of
-- the service and the timers it has armed are the record Worker, its callbacks functions, and Step
-- says which may run next; no fuel and no delays, since a timer may fire at any time. A heartbeat
-- that throws changes nothing, as one that was renewed. FakeWorker/Invariant and
-- FakeWorker/Shutdown hold the proofs.
--
-- Not modelled: the GraphQL and HTTP presentation, the AWS adapters, NestJS wiring, telemetry and
-- logging, which are input and output or calls of libraries.
mod Errors
mod Prelude
pub mod Domain
pub mod Dates
pub mod Access
pub mod Work
pub mod Memory
pub mod Postgres
pub mod Service
pub mod Json
pub mod Audit
pub mod Login
pub mod Claims
pub mod Config
pub mod Processor
pub mod FakeWorker
pub mod Tests
