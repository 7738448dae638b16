-- ===== src/Postgres/Mappers.antt =====
-- src/infrastructure/repositories/postgres/postgres-mappers.ts: from rows to the domain.
use movie_reservation_servic.Prelude.{
  ℕ, ◌&&◌, Option, none, some, List, JsString, text, ◌===◌, is_text, Result, ok, err, if◌then◌else◌,
}
use movie_reservation_servic.Prelude.Results.{◌>>=◌, return}
use movie_reservation_servic.Errors.{invalid_status, invalid_attempt_row}
use movie_reservation_servic.Dates.{Dates, iso_or_throw}
use movie_reservation_servic.Domain.Ids.{create_uuid_id, create_non_empty_id}
use movie_reservation_servic.Domain.Catalog.{MovieProvider, Movie, Auditorium, Screening, Seat}
use movie_reservation_servic.Domain.Request.{
  ReservationRequestStatus, requested, processing, confirmed, rejected, failed, ReservationRequest,
  create_sequence,
}
use movie_reservation_servic.Domain.Reservation.{Reservation, create_reservation}
use movie_reservation_servic.Work
use movie_reservation_servic.Work.{
  ObservabilityContext, AttemptBase, FailureReason, unexpected_error, lease_timeout,
  ProcessingAttempt,
}
use movie_reservation_servic.Postgres.Rows.{
  Timestamp, date_value, date_text, MovieProviderRow, MovieRow, AuditoriumRow, ScreeningRow,
  SeatRow, ReservationRequestRow, ReservationRow, AttemptRow,
}

abbrev iso_of_time : Dates → Option ℕ → Option JsString
iso_of_time d none = none
iso_of_time d (some n) = d.to_iso_string n

-- `toIsoString`
unfoldable pub to_iso_text : Dates → Timestamp → Result JsString
to_iso_text d (date_value n) = iso_or_throw (d.to_iso_string n)
to_iso_text d (date_text s) = iso_or_throw (iso_of_time d (d.get_time s))

-- The members of the enum `ReservationRequestStatus`
abbrev pub status_text : ReservationRequestStatus → JsString
status_text requested = text "REQUESTED"
status_text processing = text "PROCESSING"
status_text confirmed = text "CONFIRMED"
status_text rejected = text "REJECTED"
status_text failed = text "FAILED"

-- `parseReservationRequestStatus`
unfoldable pub parse_status : JsString → Result ReservationRequestStatus
parse_status value =
    if value === text "REQUESTED"
    then ok requested
    else if value === text "PROCESSING"
    then ok processing
    else if value === text "CONFIRMED"
    then ok confirmed
    else if value === text "REJECTED"
    then ok rejected
    else if value === text "FAILED"
    then ok failed
    else err (invalid_status value)

unfoldable pub to_movie_provider : MovieProviderRow → Result MovieProvider
to_movie_provider row = do
  id ← create_uuid_id row.id
  return (record { id = id; code = row.code; name = row.name })

unfoldable pub to_movie : MovieRow → Result Movie
to_movie row = do
  id ← create_uuid_id row.id
  movie_provider_id ← create_uuid_id row.movie_provider_id
  return (record {
    id = id;
    movie_provider_id = movie_provider_id;
    title = row.title;
    rating = row.rating;
    duration_minutes = row.duration_minutes;
  })

unfoldable pub to_auditorium : AuditoriumRow → Result Auditorium
to_auditorium row = do
  id ← create_uuid_id row.id
  movie_provider_id ← create_uuid_id row.movie_provider_id
  return (record { id = id; movie_provider_id = movie_provider_id; name = row.name })

unfoldable pub to_screening : Dates → ScreeningRow → Result Screening
unfolding to_iso_text
to_screening d row = do
  id ← create_uuid_id row.id
  movie_provider_id ← create_uuid_id row.movie_provider_id
  movie_id ← create_uuid_id row.movie_id
  auditorium_id ← create_uuid_id row.auditorium_id
  starts_at ← to_iso_text d row.starts_at
  ends_at ← to_iso_text d row.ends_at
  return (record {
    id = id;
    movie_provider_id = movie_provider_id;
    movie_id = movie_id;
    auditorium_id = auditorium_id;
    starts_at = starts_at;
    ends_at = ends_at;
  })

unfoldable pub to_seat : SeatRow → Result Seat
to_seat row = do
  id ← create_uuid_id row.id
  movie_provider_id ← create_uuid_id row.movie_provider_id
  auditorium_id ← create_uuid_id row.auditorium_id
  return (record {
    id = id;
    movie_provider_id = movie_provider_id;
    auditorium_id = auditorium_id;
    row = row.row_label;
    number = row.seat_number;
  })

unfoldable pub to_reservation_request :
    ReservationRequestRow → List JsString → Result ReservationRequest
unfolding parse_status
to_reservation_request row seat_ids = do
  id ← create_uuid_id row.id
  movie_provider_id ← create_uuid_id row.movie_provider_id
  screening_id ← create_uuid_id row.screening_id
  requested_by_user_id ← create_non_empty_id row.requested_by_user_id
  status ← parse_status row.status
  return (record {
    id = id;
    movie_provider_id = movie_provider_id;
    screening_id = screening_id;
    seat_ids = seat_ids;
    requested_by_user_id = requested_by_user_id;
    status = status;
  })

unfoldable pub to_reservation : Dates → ReservationRow → List JsString → Result Reservation
unfolding to_iso_text
to_reservation d row seat_ids = do
  id ← create_uuid_id row.id
  movie_provider_id ← create_uuid_id row.movie_provider_id
  reservation_request_id ← create_uuid_id row.reservation_request_id
  screening_id ← create_uuid_id row.screening_id
  reserved_by_user_id ← create_non_empty_id row.reserved_by_user_id
  confirmed_at ← to_iso_text d row.confirmed_at
  create_reservation (record {
    id = id;
    movie_provider_id = movie_provider_id;
    reservation_request_id = reservation_request_id;
    screening_id = screening_id;
    seat_ids = seat_ids;
    reserved_by_user_id = reserved_by_user_id;
    confirmed_at = confirmed_at;
  })

-- `toReservationWorkObservabilityContext`
unfoldable pub to_observability_context : ReservationRequestRow → Option ObservabilityContext
to_observability_context row = elim row.correlation_id [
  | none ↦ none
  | some correlation_id ↦ elim row.request_id [
    | none ↦ none
    | some request_id ↦ elim row.traceparent [
      | none ↦ none
      | some traceparent ↦ some (record {
        correlation_id = correlation_id;
        request_id = request_id;
        traceparent = traceparent;
        tracestate = row.tracestate;
      })
    ]
  ]
]

abbrev failure_reason : Option JsString → Option FailureReason
failure_reason reason =
    if is_text reason (text "unexpected-error")
    then some unexpected_error
    else if is_text reason (text "lease-timeout")
    then some lease_timeout
    else none

-- The three guarded returns of `toReservationRequestProcessingAttempt` and its last `throw`
abbrev to_rest : AttemptRow → AttemptBase → Result ProcessingAttempt
to_rest row base =
    if row.outcome === text "failed"
    then elim (failure_reason row.reason) [
      | some reason ↦ ok (Work.ProcessingAttempt.failed (record { base = base; reason = reason }))
      | none ↦ err (invalid_attempt_row row.reservation_request_id)
    ]
    else err (invalid_attempt_row row.reservation_request_id)

abbrev to_rejected_or_rest : AttemptRow → AttemptBase → Option JsString → Result ProcessingAttempt
to_rejected_or_rest row base none = to_rest row base
to_rejected_or_rest row base (some conflicting) =
    if row.outcome === text "rejected" && is_text row.reason (text "seat-conflict")
    then (do
      id ← create_uuid_id conflicting
      return (
          Work.ProcessingAttempt.rejected
            (record { base = base; conflicting_reservation_id = id })))
    else to_rest row base

abbrev pub to_confirmed_or_rest :
    AttemptRow → AttemptBase → Option JsString → Result ProcessingAttempt
to_confirmed_or_rest row base none = to_rejected_or_rest row base row.conflicting_reservation_id
to_confirmed_or_rest row base (some reservation_id) =
    if row.outcome === text "confirmed"
    then (do
      id ← create_uuid_id reservation_id
      return (Work.ProcessingAttempt.confirmed (record { base = base; reservation_id = id })))
    else to_rejected_or_rest row base row.conflicting_reservation_id

-- `toReservationRequestProcessingAttempt`
unfoldable pub to_attempt : Dates → AttemptRow → Result ProcessingAttempt
unfolding to_iso_text create_sequence
to_attempt d row = do
  id ← create_uuid_id row.reservation_request_id
  sequence ← create_sequence row.reservation_request_sequence
  started_at ← to_iso_text d row.started_at
  completed_at ← to_iso_text d row.completed_at
  to_confirmed_or_rest row
      (record {
        reservation_request_id = id;
        sequence = sequence;
        started_at = started_at;
        completed_at = completed_at;
      })
      row.reservation_id
