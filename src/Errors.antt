-- ===== src/Errors.antt =====
-- What the code throws: one constructor for each `throw` of the sources that are modelled, with
-- the ids that its message names.
use Prim.Native.Nat.{ℕ}
use mathlib.Core.List.{List}

pub data Error : Type 0 where
  -- domain/movie-reservations/id-utils.ts, domain/authentication/user-id.ts
  cannot_be_empty must_be_uuid : Error
  -- domain/movie-reservations/reservation-request-sequence.ts
  sequence_must_be_positive_safe_integer : Error
  -- domain/movie-reservations/reservation-request.ts and reservation.ts
  must_include_seat cannot_include_duplicate_seats : Error
  -- domain/movie-reservations/reservation-request-transitions.ts
  cannot_transition : List ℕ → Error
  -- application/movie-reservations/errors
  request_already_exists : List ℕ → Error
  seat_reservation_commit : Error
  -- infrastructure/repositories/in-memory
  no_work_metadata request_not_found sequence_changed claim_was_lost not_processing : List ℕ → Error
  reservation_already_exists : List ℕ → Error
  -- application/movie-reservations/movie-reservations.service.ts
  screening_not_found : List ℕ → Error
  seat_not_available : List ℕ → List ℕ → Error
  -- domain/authentication/authentication-error.ts, with its message
  authentication_error : List ℕ → Error
  -- infrastructure/repositories/postgres
  invalid_status invalid_attempt_row not_updated not_claimed reservation_not_found : List ℕ → Error
  -- an error of the database, with its `code` and its `constraint`
  database_error : List ℕ → List ℕ → Error
  -- `new Date(NaN).toISOString()`
  range_error : Error
  -- an error of a collaborator that the code only passes on
  other_error : ℕ → Error
