-- ===== src/Processor/Steps.antt =====
-- The methods of src/application/movie-reservations/in-process-reservation-request-processor.ts.
use movie_reservation_servic.Prelude.{
  ℕ, ◌+◌, ◌-◌, Bool, true, false, Option, none, some, [], ◌∷◌, ◌++◌, JsString, ok, Exec, pure,
  throw, lift, throw_if, ◌>>=◌, ◌>>◌, ltb, if◌then◌else◌,
}
use movie_reservation_servic.Errors.{Error, seat_reservation_commit}
use movie_reservation_servic.Dates.{add_milliseconds}
use movie_reservation_servic.Domain.Reservation.{Reservation, create_reservation}
use movie_reservation_servic.Work
use movie_reservation_servic.Work.{
  ClaimedReservationRequest, AttemptBase, ConfirmedAttempt, RejectedAttempt, unexpected_error,
  FailedAttempt, ClaimInput, ConfirmResult,
}
use movie_reservation_servic.Memory.Claim.{claim_next}
use movie_reservation_servic.Memory.Settle.{
  find_conflict, confirm_claimed, reject_claimed, release_claimed, fail_claimed,
}
use movie_reservation_servic.Processor.World.{
  ProcessingResult, no_pending_request, confirmed, rejected, retryable_failure, failed, Outcome,
  Event, span, claimed, on_claimed, idle, outcome, exception, Options, Ports, World,
  ProcessingInput, in_store, handle, raised, attributes_of,
}

module _ (ports : Ports) (options : Options) where
  -- A call of the observability port.
  unfoldable pub tell : Event → Exec World (Unit {0})
  tell e w = (raised (ports.observe e), record w { log = w.log ++ e ∷ [] })

  unfoldable pub now : Exec World JsString
  now w = (ok (ports.now_iso_string w.clock_calls), record w { clock_calls = w.clock_calls + 1 })

  unfoldable pub next_reservation_id : Exec World JsString
  next_reservation_id w =
      (ok (ports.generate_reservation_id w.id_calls), record w { id_calls = w.id_calls + 1 })

  -- `input.claimToken ?? this.options.createClaimToken?.() ?? randomUUID()`
  token_by : Option JsString → Option (ℕ → JsString) → ℕ → JsString
  token_by (some token) create n = token
  token_by none (some create) n = create n
  token_by none none n = ports.random_uuid n

  -- How many tokens that draws.
  abbrev drawn : Option JsString → ℕ
  drawn (some token) = 0
  drawn none = 1

  unfoldable pub claim_token : ProcessingInput → Exec World JsString
  unfolding token_by
  claim_token input w = (
    ok (token_by input.claim_token options.create_claim_token w.token_calls),
    record w { token_calls = w.token_calls + drawn input.claim_token },
  )

  abbrev outcome_of : ProcessingResult → Outcome
  outcome_of no_pending_request = Outcome.no_pending_request
  outcome_of (confirmed a r reservation) = Outcome.confirmed
  outcome_of (rejected a r) = Outcome.rejected
  outcome_of (retryable_failure a r n) = Outcome.retryable_failure
  outcome_of (failed a r) = Outcome.failed

  -- `recordProcessorOutcome`; the request of a result is the claimed one.
  abbrev request_id_of : ProcessingResult → JsString → JsString
  request_id_of no_pending_request id = id
  request_id_of (confirmed a r reservation) id = r.id
  request_id_of (rejected a r) id = r.id
  request_id_of (retryable_failure a r n) id = r.id
  request_id_of (failed a r) id = r.id

  unfoldable pub record_outcome :
      ProcessingResult → ClaimedReservationRequest → Exec World (Unit {0})
  unfolding tell
  record_outcome result c = tell (
      outcome (outcome_of result) (record (attributes_of c) {
        reservation_request_id = request_id_of result c.reservation_request.id;
      }))

  abbrev pub attempt_base : ClaimedReservationRequest → JsString → JsString → AttemptBase
  attempt_base c started_at completed_at = record {
    reservation_request_id = c.reservation_request.id;
    sequence = c.sequence;
    started_at = started_at;
    completed_at = completed_at;
  }

  abbrev pub rejected_attempt :
      ClaimedReservationRequest → JsString → JsString → JsString → RejectedAttempt
  rejected_attempt c started_at completed_at conflicting_reservation_id = record {
    base = attempt_base c started_at completed_at;
    conflicting_reservation_id = conflicting_reservation_id;
  }

  abbrev pub finish_reject :
      ClaimedReservationRequest → RejectedAttempt → Exec World ProcessingResult
  finish_reject c attempt = do r ← in_store (reject_claimed c attempt); pure (rejected attempt r)

  -- `rejectClaimedWorkItemForSeatConflict`
  unfoldable pub reject_for_seat_conflict :
      ClaimedReservationRequest → JsString → JsString → Exec World ProcessingResult
  unfolding now
  reject_for_seat_conflict c started_at conflicting_reservation_id = do
    completed_at ← now
    finish_reject c (rejected_attempt c started_at completed_at conflicting_reservation_id)

  -- What `confirmClaimedWorkItem` returns, by what the repository did.
  abbrev pub confirm_outcome : ConfirmedAttempt → Reservation → ConfirmResult → ProcessingResult
  confirm_outcome attempt reservation (Work.ConfirmResult.confirmed r) =
      confirmed attempt r reservation
  confirm_outcome attempt reservation (Work.ConfirmResult.rejected r attempt') = rejected attempt' r

  abbrev pub reservation_input : ClaimedReservationRequest → JsString → JsString → Reservation
  reservation_input c id confirmed_at = record {
    id = id;
    movie_provider_id = c.reservation_request.movie_provider_id;
    reservation_request_id = c.reservation_request.id;
    screening_id = c.reservation_request.screening_id;
    seat_ids = c.reservation_request.seat_ids;
    reserved_by_user_id = c.reservation_request.requested_by_user_id;
    confirmed_at = confirmed_at;
  }

  abbrev pub confirmed_attempt :
      ClaimedReservationRequest → JsString → JsString → Reservation → ConfirmedAttempt
  confirmed_attempt c started_at completed_at reservation = record {
    base = attempt_base c started_at completed_at;
    reservation_id = reservation.id;
  }

  abbrev pub finish_confirm :
      ClaimedReservationRequest → Reservation → ConfirmedAttempt → Exec World ProcessingResult
  finish_confirm c reservation attempt = do
    result ← in_store (confirm_claimed c reservation attempt)
    pure (confirm_outcome attempt reservation result)

  -- `confirmClaimedWorkItem`
  unfoldable pub confirm_work_item :
      ClaimedReservationRequest → JsString → Exec World ProcessingResult
  unfolding now next_reservation_id
  confirm_work_item c started_at = do
    id ← next_reservation_id
    confirmed_at ← now
    reservation ← lift (create_reservation (reservation_input c id confirmed_at))
    completed_at ← now
    finish_confirm c reservation (confirmed_attempt c started_at completed_at reservation)

  abbrev pub retry : ClaimedReservationRequest → FailedAttempt → ℕ → Exec World ProcessingResult
  retry c attempt next_count = do
    r ← in_store (release_claimed c attempt)
    pure (retryable_failure attempt r (options.max_transient_failures - next_count))

  abbrev pub give_up : ClaimedReservationRequest → FailedAttempt → Exec World ProcessingResult
  give_up c attempt = do r ← in_store (fail_claimed c attempt); pure (failed attempt r)

  abbrev pub failed_attempt : ClaimedReservationRequest → JsString → JsString → FailedAttempt
  failed_attempt c started_at completed_at = record {
    base = attempt_base c started_at completed_at;
    reason = unexpected_error;
  }

  abbrev pub retry_or_give_up :
      ClaimedReservationRequest → FailedAttempt → ℕ → Exec World ProcessingResult
  retry_or_give_up c attempt next_count =
      if ltb next_count options.max_transient_failures
      then retry c attempt next_count
      else give_up c attempt

  -- `handleUnexpectedFailure`
  unfoldable pub handle_unexpected_failure :
      ClaimedReservationRequest → JsString → Exec World ProcessingResult
  unfolding now
  handle_unexpected_failure c started_at = do
    completed_at ← now
    retry_or_give_up c (failed_attempt c started_at completed_at) (c.transient_failure_count + 1)

  -- `throwIfFailurePolicyBlocksCommit`
  unfoldable pub throw_if_blocked : ClaimedReservationRequest → Exec World (Unit {0})
  throw_if_blocked c = throw_if (ports.should_fail c.reservation_request.id) seat_reservation_commit

  abbrev pub by_conflict :
      ClaimedReservationRequest → JsString → Option Reservation → Exec World ProcessingResult
  by_conflict c started_at none = throw_if_blocked c >> confirm_work_item c started_at
  by_conflict c started_at (some conflict) = reject_for_seat_conflict c started_at conflict.id

  -- The `try` block up to `terminalStatePersisted = true`.
  unfoldable pub settle_work_item :
      ClaimedReservationRequest → JsString → Exec World ProcessingResult
  unfolding throw_if_blocked
  settle_work_item c started_at = do
    conflict ←
        in_store (find_conflict c.reservation_request.screening_id c.reservation_request.seat_ids)
    by_conflict c started_at conflict

  -- The rest of the `try` block; its `catch` rethrows, since a terminal state is persisted.
  unfoldable pub report_terminal :
      ClaimedReservationRequest → ProcessingResult → Exec World ProcessingResult
  unfolding record_outcome
  report_terminal c result =
      handle (record_outcome result c) (λ _. pure result) (λ e. tell (exception e) >> throw e)

  -- The `catch` block while no terminal state is persisted.
  unfoldable pub recover :
      ClaimedReservationRequest → JsString → Error → Exec World ProcessingResult
  unfolding record_outcome
  recover c started_at e = do
    result ← handle_unexpected_failure c started_at
    tell (exception e)
    record_outcome result c
    pure result

  -- `onClaimed?.(claimedWorkItem)`
  abbrev pub call_on_claimed : Bool → ClaimedReservationRequest → Exec World (Unit {0})
  call_on_claimed true c = tell (on_claimed c)
  call_on_claimed false c = pure tt

  -- `processClaimedWorkItem`
  unfoldable pub process_claimed :
      ClaimedReservationRequest → ProcessingInput → JsString → Exec World ProcessingResult
  process_claimed c input started_at = do
    tell (claimed (attributes_of c))
    call_on_claimed input.has_on_claimed c
    handle (settle_work_item c started_at) (report_terminal c) (recover c started_at)

  abbrev pub by_claim :
      ProcessingInput → JsString → Option ClaimedReservationRequest → Exec World ProcessingResult
  by_claim input started_at none = do tell idle; pure no_pending_request
  by_claim input started_at (some c) = do
    tell (span (attributes_of c))
    process_claimed c input started_at

  abbrev pub claim_input : JsString → JsString → JsString → ClaimInput
  claim_input token started_at expires_at = record {
    worker_id = options.worker_id;
    claim_token = token;
    claimed_at = started_at;
    claim_expires_at = expires_at;
    max_lease_timeouts = options.max_lease_timeouts;
    max_transient_failures = options.max_transient_failures;
  }

  -- `processNextPendingRequest`
  unfoldable pub process_next : ProcessingInput → Exec World ProcessingResult
  unfolding now claim_token
  process_next input = do
    started_at ← now
    token ← claim_token input
    expires_at ← lift (add_milliseconds ports.dates started_at options.claim_lease_ms)
    c ← in_store (claim_next ports.dates (claim_input token started_at expires_at))
    by_claim input started_at c
