-- ===== src/Memory/Settle.antt =====
-- Conflicts, and the ways a claimed request ends, of
-- src/infrastructure/repositories/in-memory/in-memory-reservation-request-work.repository.ts.
use movie_reservation_servic.Prelude.{
  Bool, false, not, ◌&&◌, ◌||◌, Option, none, some, List, [], ◌∷◌, JsString, ◌===◌, includes, Exec,
  pure, throw, lift, gets, modify, throw_if, ◌>>=◌, ◌>>◌, ◌==◌, if◌then◌else◌,
}
use movie_reservation_servic.Prelude.JsMap.{get, set, has, values}
use movie_reservation_servic.Errors.{
  request_not_found, sequence_changed, claim_was_lost, not_processing, reservation_already_exists,
}
use movie_reservation_servic.Domain.Request.{
  requested, processing, ReservationRequest, same_status, confirm_request, reject_request,
  fail_request,
}
use movie_reservation_servic.Domain.Reservation.{Reservation}
use movie_reservation_servic.Work
use movie_reservation_servic.Work.{
  ClaimedReservationRequest, AttemptBase, ConfirmedAttempt, RejectedAttempt, FailedAttempt,
  ProcessingAttempt, ConfirmResult,
}
use movie_reservation_servic.Memory.Store.{
  Store, put_request, get_metadata, get_sequence, record_attempt,
}
use movie_reservation_servic.Memory.Metadata.{
  clear_claim_metadata, increment_transient_failure_count, holds_claim,
}

-- `reservation.seatIds.some((seatId) => requestedSeatIds.has(seatId))`
unfoldable pub overlaps : List JsString → List JsString → Bool
overlaps [] asked = false
overlaps (x ∷ xs) asked = includes asked x || overlaps xs asked

-- The loop of `findConflictingConfirmedReservation`.
unfoldable pub first_conflict : JsString → List JsString → List Reservation → Option Reservation
first_conflict screening_id seat_ids [] = none
first_conflict screening_id seat_ids (r ∷ rs) =
    if r.screening_id === screening_id && overlaps r.seat_ids seat_ids
    then some r
    else first_conflict screening_id seat_ids rs

-- `findConflictingConfirmedReservation`
unfoldable pub find_conflict : JsString → List JsString → Exec Store (Option Reservation)
find_conflict screening_id seat_ids =
    gets (λ s. first_conflict screening_id seat_ids (values s.reservations))

abbrev found_or_throw : JsString → Option ReservationRequest → Exec Store ReservationRequest
found_or_throw id none = throw (request_not_found id)
found_or_throw id (some r) = pure r

-- `requireClaimedProcessingRequest`
unfoldable pub require_claimed : ClaimedReservationRequest → Exec Store ReservationRequest
unfolding get_sequence
require_claimed c = do
  current ← gets (λ s. get s.requests c.reservation_request.id)
  r ← found_or_throw c.reservation_request.id current
  stored_sequence ← get_sequence c.reservation_request.id
  m ← get_metadata c.reservation_request.id
  throw_if (not (stored_sequence == c.sequence)) (sequence_changed c.reservation_request.id)
  throw_if (not (holds_claim m c)) (claim_was_lost c.reservation_request.id)
  throw_if (not (same_status r.status processing)) (not_processing r.id)
  pure r

-- The attempt that `confirmClaimedReservationRequest` records when it meets a conflict.
abbrev pub conflict_attempt :
    ReservationRequest → ClaimedReservationRequest → AttemptBase → Reservation → RejectedAttempt
conflict_attempt current c attempted conflict = record {
  base = record {
    reservation_request_id = current.id;
    sequence = c.sequence;
    started_at = attempted.started_at;
    completed_at = attempted.completed_at;
  };
  conflicting_reservation_id = conflict.id;
}

-- `confirmClaimedReservationRequest` up to its `await`: the checks and the search for a conflict.
unfoldable pub begin_confirm :
    ClaimedReservationRequest → Reservation → Exec Store (ReservationRequest × Option Reservation)
unfolding find_conflict
begin_confirm c reservation = do
  current ← require_claimed c
  known ← gets (λ s. has s.reservations reservation.id)
  throw_if known (reservation_already_exists reservation.id)
  conflict ← find_conflict reservation.screening_id reservation.seat_ids
  pure (current, conflict)

-- The rest of it, which runs in a later turn of the event loop.
unfoldable pub end_confirm :
    ClaimedReservationRequest
    → Reservation
    → ConfirmedAttempt
    → ReservationRequest
    → Option Reservation
    → Exec Store ConfirmResult
unfolding reject_request confirm_request clear_claim_metadata record_attempt
end_confirm c reservation attempt current (some conflict) = do
  rejected_request ← lift (reject_request current)
  put_request rejected_request
  clear_claim_metadata rejected_request.id
  record_attempt
      (Work.ProcessingAttempt.rejected (conflict_attempt current c attempt.base conflict))
  pure (
      Work.ConfirmResult.rejected rejected_request
        (conflict_attempt current c attempt.base conflict))
end_confirm c reservation attempt current none = do
  confirmed_request ← lift (confirm_request current)
  modify (λ s. record s { reservations = set s.reservations reservation.id reservation })
  put_request confirmed_request
  clear_claim_metadata confirmed_request.id
  record_attempt (Work.ProcessingAttempt.confirmed attempt)
  pure (Work.ConfirmResult.confirmed confirmed_request)

-- `confirmClaimedReservationRequest`, when nothing else runs across its `await`.
unfoldable pub confirm_claimed :
    ClaimedReservationRequest → Reservation → ConfirmedAttempt → Exec Store ConfirmResult
unfolding begin_confirm end_confirm
confirm_claimed c reservation attempt = do
  checked ← begin_confirm c reservation
  end_confirm c reservation attempt checked.0 checked.1

-- `rejectClaimedReservationRequest`
unfoldable pub reject_claimed :
    ClaimedReservationRequest → RejectedAttempt → Exec Store ReservationRequest
unfolding reject_request clear_claim_metadata record_attempt
reject_claimed c attempt = do
  current ← require_claimed c
  rejected_request ← lift (reject_request current)
  put_request rejected_request
  clear_claim_metadata rejected_request.id
  record_attempt (Work.ProcessingAttempt.rejected attempt)
  pure rejected_request

-- `releaseClaimedReservationRequestForRetry`
unfoldable pub release_claimed :
    ClaimedReservationRequest → FailedAttempt → Exec Store ReservationRequest
unfolding increment_transient_failure_count clear_claim_metadata record_attempt
release_claimed c attempt = do
  current ← require_claimed c
  let retryable_request = record current { status = requested }
  put_request retryable_request
  increment_transient_failure_count retryable_request.id
  clear_claim_metadata retryable_request.id
  record_attempt (Work.ProcessingAttempt.failed attempt)
  pure retryable_request

-- `failClaimedReservationRequest`
unfoldable pub fail_claimed :
    ClaimedReservationRequest → FailedAttempt → Exec Store ReservationRequest
unfolding fail_request increment_transient_failure_count clear_claim_metadata record_attempt
fail_claimed c attempt = do
  current ← require_claimed c
  failed_request ← lift (fail_request current)
  put_request failed_request
  increment_transient_failure_count failed_request.id
  clear_claim_metadata failed_request.id
  record_attempt (Work.ProcessingAttempt.failed attempt)
  pure failed_request
