-- ===== src/Postgres/State.antt =====
-- src/infrastructure/repositories/postgres: postgres-reservation-request-state-store.ts,
-- postgres-reservation-seat-lookup.ts and postgres-row-utils.ts.
use movie_reservation_servic.Prelude.{
  ℕ, ◌+◌, Bool, true, false, not, ◌||◌, Option, none, some, List, [], ◌∷◌, map, JsString, text,
  ◌===◌, is_text, Result, ok, err, Exec, pure, lift, gets, throw_if, ◌>>=◌, ◌>>◌, filter, ◌==◌,
  if◌then◌else◌,
}
use movie_reservation_servic.Prelude.Results.{traverse}
use movie_reservation_servic.Errors.{
  Error, not_updated, request_not_found, sequence_changed, not_processing, claim_was_lost,
}
use movie_reservation_servic.Dates.{Dates}
use movie_reservation_servic.Domain.Ids.{create_uuid_id}
use movie_reservation_servic.Domain.Request.{
  ReservationRequestStatus, requested, processing, confirmed, rejected, failed, ReservationRequest,
  create_sequence, same_status,
}
use movie_reservation_servic.Work
use movie_reservation_servic.Work.{
  ClaimedReservationRequest, ConfirmedAttempt, RejectedAttempt, FailureReason, unexpected_error,
  lease_timeout, FailedAttempt, ProcessingAttempt, AttemptBase,
}
use movie_reservation_servic.Postgres.Rows.{Timestamp, ReservationRequestRow, AttemptRow}
use movie_reservation_servic.Postgres.Mappers.{status_text, to_reservation_request, to_attempt}
use movie_reservation_servic.Postgres.Tables.{
  Tables, Engine, first, order_by, has_request_id, update_requests, insert_attempt_row,
}

-- `requireSingleRow`
abbrev pub require_single_row : {R : Type 0} → List R → Error → Result R
require_single_row [] e = err e
require_single_row (row ∷ rows) e = ok row

-- `findReservationRequestSeatIds`
unfoldable pub find_request_seat_ids : Engine → JsString → Exec Tables (List JsString)
unfolding order_by filter traverse
find_request_seat_ids e reservation_request_id t = (
  traverse create_uuid_id (
      order_by e.collates (
        map (λ r. r.seat_id)
          (filter (λ r. r.reservation_request_id === reservation_request_id) t.request_seats))),
  t,
)

-- `findReservationSeatIds`
unfoldable pub find_reservation_seat_ids : Engine → JsString → Exec Tables (List JsString)
unfolding order_by filter traverse
find_reservation_seat_ids e reservation_id t = (
  traverse create_uuid_id (
      order_by e.collates (
        map (λ r. r.seat_id)
          (filter (λ r. r.reservation_id === reservation_id) t.reservation_seats))),
  t,
)

-- `first()` of a query, or the error that is thrown without a row
abbrev pub require : {R : Type 0} → Option R → Error → Exec Tables R
require none e t = (err e, t)
require (some row) e t = (ok row, t)

-- `requireClaimedProcessingRequest`
unfoldable pub require_claimed : ClaimedReservationRequest → Exec Tables ReservationRequestRow
unfolding filter create_sequence
require_claimed item = do
  found ← gets (λ t. first (filter (has_request_id item.reservation_request.id) t.requests))
  row ← require found (request_not_found item.reservation_request.id)
  stored_sequence ← lift (create_sequence row.sequence)
  throw_if (not (stored_sequence == item.sequence)) (sequence_changed item.reservation_request.id)
  throw_if (not (row.status === status_text processing)) (not_processing row.id)
  throw_if
      (not (is_text row.claimed_by item.claimed_by)
        || not (is_text row.claim_token item.claim_token))
      (claim_was_lost row.id)
  pure row

-- `status === REQUESTED ? null : trx.fn.now()`
abbrev terminal_timestamp : Engine → Tables → ReservationRequestStatus → Option Timestamp
terminal_timestamp e t status = if same_status status requested then none else some (e.now t)

-- The columns that every change away from PROCESSING writes
abbrev pub with_status :
    Engine
    → Tables
    → ReservationRequestStatus
    → Bool
    → ReservationRequestRow
    → ReservationRequestRow
with_status e t status increments row = record row {
  status = status_text status;
  claimed_by = none;
  claim_token = none;
  claimed_at = none;
  claim_expires_at = none;
  last_heartbeat_at = none;
  transient_failure_count =
      if increments then row.transient_failure_count + 1 else row.transient_failure_count;
  processed_at = terminal_timestamp e t status;
  updated_at = e.now t;
}

-- `updateClaimedRequestStatus`
unfoldable pub update_claimed_status :
    Engine
    → ClaimedReservationRequest
    → ReservationRequestStatus
    → Bool
    → Exec Tables ReservationRequest
unfolding update_requests find_request_seat_ids to_reservation_request
update_claimed_status e item status increments = do
  tables ← gets (λ t. t)
  updated_rows ←
      update_requests (has_request_id item.reservation_request.id)
        (with_status e tables status increments)
  row ← lift (require_single_row updated_rows (not_updated item.reservation_request.id))
  seat_ids ← find_request_seat_ids e row.id
  lift (to_reservation_request row seat_ids)

abbrev reason_text : FailureReason → JsString
reason_text unexpected_error = text "unexpected-error"
reason_text lease_timeout = text "lease-timeout"

-- The object that `insertProcessingAttempt` inserts, with its times as the columns hold them
unfoldable pub attempt_row : Timestamp → Timestamp → ProcessingAttempt → AttemptRow
attempt_row started completed (Work.ProcessingAttempt.confirmed a) = record {
  reservation_request_id = a.base.reservation_request_id;
  reservation_request_sequence = a.base.sequence;
  started_at = started;
  completed_at = completed;
  outcome = text "confirmed";
  reason = none;
  reservation_id = some a.reservation_id;
  conflicting_reservation_id = none;
}
attempt_row started completed (Work.ProcessingAttempt.rejected a) = record {
  reservation_request_id = a.base.reservation_request_id;
  reservation_request_sequence = a.base.sequence;
  started_at = started;
  completed_at = completed;
  outcome = text "rejected";
  reason = some (text "seat-conflict");
  reservation_id = none;
  conflicting_reservation_id = some a.conflicting_reservation_id;
}
attempt_row started completed (Work.ProcessingAttempt.failed a) = record {
  reservation_request_id = a.base.reservation_request_id;
  reservation_request_sequence = a.base.sequence;
  started_at = started;
  completed_at = completed;
  outcome = text "failed";
  reason = some (reason_text a.reason);
  reservation_id = none;
  conflicting_reservation_id = none;
}

abbrev pub attempt_base : ProcessingAttempt → AttemptBase
attempt_base (Work.ProcessingAttempt.confirmed a) = a.base
attempt_base (Work.ProcessingAttempt.rejected a) = a.base
attempt_base (Work.ProcessingAttempt.failed a) = a.base

-- `insertProcessingAttempt`
unfoldable pub insert_attempt : Engine → ProcessingAttempt → Exec Tables (Unit {0})
unfolding attempt_row insert_attempt_row
insert_attempt e attempt = do
  started ← lift (e.timestamptz (attempt_base attempt).started_at)
  completed ← lift (e.timestamptz (attempt_base attempt).completed_at)
  insert_attempt_row e (attempt_row started completed attempt)

-- `markClaimedReservationRequestConfirmed`
unfoldable pub mark_confirmed :
    Engine → ClaimedReservationRequest → ConfirmedAttempt → Exec Tables ReservationRequest
unfolding update_claimed_status insert_attempt
mark_confirmed e item attempt = do
  request ← update_claimed_status e item confirmed false
  insert_attempt e (Work.ProcessingAttempt.confirmed attempt)
  pure request

-- The body that the three transactions below share
unfoldable pub settle :
    Engine
    → ClaimedReservationRequest
    → ReservationRequestStatus
    → Bool
    → ProcessingAttempt
    → Exec Tables ReservationRequest
unfolding require_claimed update_claimed_status insert_attempt
settle e item status increments attempt = do
  row ← require_claimed item
  request ← update_claimed_status e item status increments
  insert_attempt e attempt
  pure request

-- `rejectClaimedReservationRequest`
unfoldable pub reject_claimed :
    Engine → ClaimedReservationRequest → RejectedAttempt → Exec Tables ReservationRequest
unfolding settle
reject_claimed e item attempt =
    e.transaction (settle e item rejected false (Work.ProcessingAttempt.rejected attempt))

-- `releaseClaimedReservationRequestForRetry`
unfoldable pub release_for_retry :
    Engine → ClaimedReservationRequest → FailedAttempt → Exec Tables ReservationRequest
unfolding settle
release_for_retry e item attempt =
    e.transaction (settle e item requested true (Work.ProcessingAttempt.failed attempt))

-- `failClaimedReservationRequest`
unfoldable pub fail_claimed :
    Engine → ClaimedReservationRequest → FailedAttempt → Exec Tables ReservationRequest
unfolding settle
fail_claimed e item attempt =
    e.transaction (settle e item failed true (Work.ProcessingAttempt.failed attempt))

-- `findReservationRequestProcessingAttemptsByRequestId`
unfoldable pub find_attempts : Dates → JsString → Tables → Result (List ProcessingAttempt)
unfolding filter traverse to_attempt
find_attempts d reservation_request_id t =
    traverse (to_attempt d)
      (filter (λ r. r.reservation_request_id === reservation_request_id) t.attempts)

-- The columns that giving up an expired claim writes
abbrev pub given_up : Timestamp → ReservationRequestRow → ReservationRequestRow
given_up at row = record row {
  status = status_text failed;
  claimed_by = none;
  claim_token = none;
  claimed_at = none;
  claim_expires_at = none;
  last_heartbeat_at = none;
  processed_at = some at;
  updated_at = at;
}

abbrev pub lease_timeout_attempt : JsString → ℕ → JsString → ProcessingAttempt
lease_timeout_attempt id sequence failed_at = Work.ProcessingAttempt.failed (record {
  base = record {
    reservation_request_id = id;
    sequence = sequence;
    started_at = failed_at;
    completed_at = failed_at;
  };
  reason = lease_timeout;
})

-- `failExpiredClaimAfterLeaseTimeoutBudget`
unfoldable pub fail_expired_claim :
    Engine → ReservationRequestRow → JsString → Exec Tables (Unit {0})
unfolding update_requests insert_attempt create_sequence
fail_expired_claim e row failed_at = do
  at ← lift (e.timestamptz failed_at)
  rows ← update_requests (has_request_id row.id) (given_up at)
  id ← lift (create_uuid_id row.id)
  sequence ← lift (create_sequence row.sequence)
  insert_attempt e (lease_timeout_attempt id sequence failed_at)
