-- ===== src/Postgres/Booking.antt =====
-- src/infrastructure/repositories/postgres: postgres-reservation-store.ts, postgres-errors.ts and
-- postgres-reservation-request-work.repository.ts, whose other methods pass their input on.
use movie_reservation_servic.Prelude.{
  Bool, false, not, ◌&&◌, Option, none, some, List, map, JsString, text, ◌===◌, includes, ok, err,
  Exec, pure, throw, lift, gets, ◌>>=◌, ◌>>◌, filter, if◌then◌else◌,
}
use movie_reservation_servic.Errors.{
  Error, database_error, screening_not_found, reservation_not_found,
}
use movie_reservation_servic.Dates.{Dates}
use movie_reservation_servic.Domain.Request.{ReservationRequest}
use movie_reservation_servic.Domain.Reservation.{Reservation}
use movie_reservation_servic.Work.{
  ClaimedReservationRequest, ConfirmedAttempt, RejectedAttempt, ConfirmResult,
}
use movie_reservation_servic.Postgres.Rows.{
  Timestamp, ScreeningRow, ReservationRow, ReservationSeatRow,
}
use movie_reservation_servic.Postgres.Mappers.{to_reservation}
use movie_reservation_servic.Postgres.Tables.{
  Tables, Engine, first, order_by, insert_reservation_row, insert_reservation_seats,
}
use movie_reservation_servic.Postgres.State.{
  find_reservation_seat_ids, require, require_claimed, mark_confirmed, reject_claimed,
}

-- `isPostgresUniqueViolation`, with the name of a constraint
unfoldable pub is_unique_violation : Error → JsString → Bool
is_unique_violation (database_error code constraint) constraint_name =
    code === text "23505" && constraint === constraint_name
is_unique_violation e constraint_name = false

-- The rows that `findConflictingConfirmedReservation` selects from `reservation_seats`
unfoldable pub conflicting_seats : JsString → List JsString → Tables → List ReservationSeatRow
unfolding filter includes
conflicting_seats screening_id seat_ids t =
    filter (λ r. r.screening_id === screening_id && includes seat_ids r.seat_id) t.reservation_seats

abbrev reservation_of :
    Engine → Dates → Option ReservationSeatRow → Exec Tables (Option Reservation)
reservation_of e d none = pure none
reservation_of e d (some seat_row) = do
  found ← gets (λ t. first (filter (λ r. r.id === seat_row.reservation_id) t.reservations))
  row ← require found (reservation_not_found seat_row.reservation_id)
  seat_ids ← find_reservation_seat_ids e row.id
  reservation ← lift (to_reservation d row seat_ids)
  pure (some reservation)

-- `findConflictingConfirmedReservation`
unfoldable pub find_conflicting :
    Engine → Dates → JsString → List JsString → Exec Tables (Option Reservation)
unfolding conflicting_seats order_by filter find_reservation_seat_ids to_reservation
find_conflicting e d screening_id seat_ids = do
  seat_row ← gets (λ t. first (
      order_by (λ a b. e.collates a.reservation_id b.reservation_id)
        (conflicting_seats screening_id seat_ids t)))
  reservation_of e d seat_row

-- `requireScreeningRowForProvider`
unfoldable pub require_screening_row : JsString → JsString → Exec Tables ScreeningRow
unfolding filter
require_screening_row movie_provider_id screening_id = do
  found ← gets (λ t. first (
      filter (λ r. r.id === screening_id && r.movie_provider_id === movie_provider_id)
        t.screenings))
  require found (screening_not_found screening_id)

-- The objects that `insertReservation` inserts
abbrev pub reservation_row : Timestamp → Reservation → ReservationRow
reservation_row confirmed_at reservation = record {
  id = reservation.id;
  movie_provider_id = reservation.movie_provider_id;
  reservation_request_id = reservation.reservation_request_id;
  screening_id = reservation.screening_id;
  reserved_by_user_id = reservation.reserved_by_user_id;
  confirmed_at = confirmed_at;
}

abbrev pub seat_row : Reservation → JsString → JsString → ReservationSeatRow
seat_row reservation auditorium_id seat_id = record {
  reservation_id = reservation.id;
  movie_provider_id = reservation.movie_provider_id;
  screening_id = reservation.screening_id;
  auditorium_id = auditorium_id;
  seat_id = seat_id;
}

-- `insertReservation`
unfoldable pub insert_reservation : Engine → Reservation → Exec Tables (Unit {0})
unfolding require_screening_row insert_reservation_row insert_reservation_seats
insert_reservation e reservation = do
  screening ← require_screening_row reservation.movie_provider_id reservation.screening_id
  confirmed_at ← lift (e.timestamptz reservation.confirmed_at)
  insert_reservation_row e (reservation_row confirmed_at reservation)
  insert_reservation_seats e
      (map (seat_row reservation screening.auditorium_id) reservation.seat_ids)

-- The body of the transaction of `confirmClaimedReservationRequest`
unfoldable pub confirm_body :
    Engine
    → ClaimedReservationRequest
    → Reservation
    → ConfirmedAttempt
    → Exec Tables ReservationRequest
unfolding require_claimed insert_reservation mark_confirmed
confirm_body e item reservation attempt = do
  row ← require_claimed item
  insert_reservation e reservation
  mark_confirmed e item attempt

abbrev pub conflict_attempt :
    ClaimedReservationRequest → ConfirmedAttempt → Reservation → RejectedAttempt
conflict_attempt item attempt conflict = record {
  base = record {
    reservation_request_id = item.reservation_request.id;
    sequence = item.sequence;
    started_at = attempt.base.started_at;
    completed_at = attempt.base.completed_at;
  };
  conflicting_reservation_id = conflict.id;
}

abbrev reject_for :
    Engine
    → ClaimedReservationRequest
    → ConfirmedAttempt
    → Error
    → Option Reservation
    → Exec Tables ConfirmResult
reject_for e item attempt error none = throw error
reject_for e item attempt error (some conflict) = do
  request ← reject_claimed e item (conflict_attempt item attempt conflict)
  pure (ConfirmResult.rejected request (conflict_attempt item attempt conflict))

-- `handleConfirmClaimedReservationRequestError`
unfoldable pub handle_confirm_error :
    Engine
    → Dates
    → ClaimedReservationRequest
    → Reservation
    → ConfirmedAttempt
    → Error
    → Exec Tables ConfirmResult
unfolding is_unique_violation find_conflicting reject_claimed
handle_confirm_error e d item reservation attempt error =
    if not (is_unique_violation error (text "reservation_seats_screening_id_seat_id_unique"))
    then throw error
    else (do
      conflict ← find_conflicting e d reservation.screening_id reservation.seat_ids
      reject_for e item attempt error conflict)

-- `try { ... } catch (error) { ... }`
abbrev pub catching :
    {A B : Type 0} → Exec Tables A → (A → Exec Tables B) → (Error → Exec Tables B) → Exec Tables B
catching m f handler t = let (r, t') = m t in elim r [ ok a ↦ f a t' | err x ↦ handler x t' ]

-- `confirmClaimedReservationRequest`
unfoldable pub confirm_claimed :
    Engine
    → Dates
    → ClaimedReservationRequest
    → Reservation
    → ConfirmedAttempt
    → Exec Tables ConfirmResult
unfolding confirm_body handle_confirm_error
confirm_claimed e d item reservation attempt =
    catching (e.transaction (confirm_body e item reservation attempt))
      (λ request. pure (ConfirmResult.confirmed request))
      (handle_confirm_error e d item reservation attempt)
