-- ===== src/Postgres/Requests.antt =====
-- src/infrastructure/repositories/postgres/postgres-movie-reservation.repository.ts, the requests
-- and the reservations.
use movie_reservation_servic.Prelude.{
  Option, none, some, map, JsString, text, ◌===◌, Exec, pure, throw, lift, gets, ◌>>=◌, ◌>>◌,
  filter, if◌then◌else◌,
}
use movie_reservation_servic.Errors.{Error, request_already_exists}
use movie_reservation_servic.Dates.{Dates}
use movie_reservation_servic.Domain.Request.{ReservationRequest}
use movie_reservation_servic.Domain.Reservation.{Reservation}
use movie_reservation_servic.Work.{ObservabilityContext}
use movie_reservation_servic.Postgres.Rows.{ReservationRequestRow, RequestSeatRow, ReservationRow}
use movie_reservation_servic.Postgres.Mappers.{status_text, to_reservation_request, to_reservation}
use movie_reservation_servic.Postgres.Tables.{
  Tables, Engine, first, has_request_id, insert_request, insert_request_seats,
}
use movie_reservation_servic.Postgres.State.{find_request_seat_ids, find_reservation_seat_ids}
use movie_reservation_servic.Postgres.Booking.{is_unique_violation, require_screening_row, catching}

abbrev request_of :
    Engine → JsString → Option ReservationRequestRow → Exec Tables (Option ReservationRequest)
request_of e reservation_request_id none = pure none
request_of e reservation_request_id (some row) = do
  seat_ids ← find_request_seat_ids e reservation_request_id
  request ← lift (to_reservation_request row seat_ids)
  pure (some request)

-- `findReservationRequestById`
unfoldable pub find_request_by_id : Engine → JsString → Exec Tables (Option ReservationRequest)
unfolding filter find_request_seat_ids to_reservation_request
find_request_by_id e reservation_request_id = do
  row ← gets (λ t. first (filter (has_request_id reservation_request_id) t.requests))
  request_of e reservation_request_id row

-- `observabilityContext?.field`
abbrev field : {A : Type 0} → (ObservabilityContext → A) → Option ObservabilityContext → Option A
field f none = none
field f (some context) = some (f context)

abbrev optional_field :
    (ObservabilityContext → Option JsString) → Option ObservabilityContext → Option JsString
optional_field f none = none
optional_field f (some context) = f context

-- The row that `saveReservationRequest` inserts: columns that it does not name have their default.
unfoldable pub request_row :
    Engine → Tables → ReservationRequest → Option ObservabilityContext → ReservationRequestRow
request_row e t request context = record {
  id = request.id;
  sequence = e.next_identity t;
  movie_provider_id = request.movie_provider_id;
  screening_id = request.screening_id;
  requested_by_user_id = request.requested_by_user_id;
  status = status_text request.status;
  requested_at = e.now t;
  claimed_by = none;
  claim_token = none;
  claimed_at = none;
  claim_expires_at = none;
  last_heartbeat_at = none;
  lease_timeout_count = 0;
  transient_failure_count = 0;
  processed_at = none;
  updated_at = e.now t;
  correlation_id = field (λ c. c.correlation_id) context;
  request_id = field (λ c. c.request_id) context;
  traceparent = field (λ c. c.traceparent) context;
  tracestate = optional_field (λ c. c.tracestate) context;
}

abbrev pub request_seat_row : ReservationRequest → JsString → JsString → RequestSeatRow
request_seat_row request auditorium_id seat_id = record {
  reservation_request_id = request.id;
  movie_provider_id = request.movie_provider_id;
  screening_id = request.screening_id;
  auditorium_id = auditorium_id;
  seat_id = seat_id;
}

-- The body of the transaction of `saveReservationRequest`
unfoldable pub save_body :
    Engine → ReservationRequest → Option ObservabilityContext → Exec Tables (Unit {0})
unfolding require_screening_row request_row insert_request insert_request_seats
save_body e request context = do
  screening ← require_screening_row request.movie_provider_id request.screening_id
  row ← gets (λ t. request_row e t request context)
  insert_request e row
  insert_request_seats e (map (request_seat_row request screening.auditorium_id) request.seat_ids)

-- The `catch` of `saveReservationRequest`
abbrev pub rethrow : JsString → Error → Exec Tables (Unit {0})
rethrow id error =
    if is_unique_violation error (text "reservation_requests_pkey")
    then throw (request_already_exists id)
    else throw error

-- `saveReservationRequest`
unfoldable pub save_request :
    Engine → ReservationRequest → Option ObservabilityContext → Exec Tables (Unit {0})
unfolding save_body is_unique_violation
save_request e request context =
    catching (e.transaction (save_body e request context)) pure (rethrow request.id)

abbrev reservation_of :
    Engine
    → Dates
    → (ReservationRow → JsString)
    → Option ReservationRow
    → Exec Tables (Option Reservation)
reservation_of e d id_of none = pure none
reservation_of e d id_of (some row) = do
  seat_ids ← find_reservation_seat_ids e (id_of row)
  reservation ← lift (to_reservation d row seat_ids)
  pure (some reservation)

-- `findReservationById`
unfoldable pub find_reservation_by_id : Engine → Dates → JsString → Exec Tables (Option Reservation)
unfolding filter find_reservation_seat_ids to_reservation
find_reservation_by_id e d reservation_id = do
  row ← gets (λ t. first (filter (λ r. r.id === reservation_id) t.reservations))
  reservation_of e d (λ r. reservation_id) row

-- `findReservationByReservationRequestId`
unfoldable pub find_reservation_by_request_id :
    Engine → Dates → JsString → Exec Tables (Option Reservation)
unfolding filter find_reservation_seat_ids to_reservation
find_reservation_by_request_id e d reservation_request_id = do
  row ← gets (λ t.
      first (filter (λ r. r.reservation_request_id === reservation_request_id) t.reservations))
  reservation_of e d (λ r. r.id) row
