-- ===== src/Processor/Calls.antt =====
-- The methods of the processor, as bounded sequences of repository calls.
use movie_reservation_servic.Prelude.{
  ℕ, ◌+◌, ◌-◌, refl, Bool, true, false, Option, none, some, List, JsString, Result, pure, throw,
  lift, arith, ltb, Bool-cases, inl, inr,
}
use movie_reservation_servic.Errors.{Error, seat_reservation_commit}
use movie_reservation_servic.Domain.Reservation.{Reservation, create_reservation}
use movie_reservation_servic.Dates.{add_milliseconds}
use movie_reservation_servic.Work.{
  ClaimedReservationRequest, ClaimInput, ConfirmedAttempt, RejectedAttempt, FailedAttempt,
}
use movie_reservation_servic.Memory.Claim.{claim_next}
use movie_reservation_servic.Memory.Settle.{
  find_conflict, confirm_claimed, reject_claimed, release_claimed, fail_claimed,
}
use movie_reservation_servic.Memory.Effect.{Command, run}
use movie_reservation_servic.Processor.World.{
  World, in_store, Ports, Options, Event, ProcessingInput, ProcessingResult, rejected,
  retryable_failure, failed, on_claimed, exception, idle, no_pending_request,
}
use movie_reservation_servic.Processor.Steps.{
  tell, now, next_reservation_id, claim_token, record_outcome, confirm_outcome,
  reject_for_seat_conflict, confirm_work_item, handle_unexpected_failure, throw_if_blocked,
  settle_work_item, report_terminal, recover, process_claimed, process_next, finish_reject,
  finish_confirm, rejected_attempt, reservation_input, confirmed_attempt, failed_attempt,
  retry_or_give_up, by_conflict, call_on_claimed, by_claim, claim_input,
}
use movie_reservation_servic.Processor.Runs.{
  Runs, Runs-quiet, Runs-command, Runs-bind, Runs-handle, Runs-weaken,
}

module _ (ports : Ports) (options : Options) where
  pure-Runs : {A : Type 0} (a : A) → Runs ports.dates 0 (pure {S = World} a)
  pure-Runs a = Runs-quiet ports.dates _ (λ w. refl)

  throw-Runs : {A : Type 0} (e : Error) → Runs ports.dates 0 (throw {S = World} {A = A} e)
  throw-Runs e = Runs-quiet ports.dates _ (λ w. refl)

  lift-Runs : {A : Type 0} (r : Result A) → Runs ports.dates 0 (lift {S = World} r)
  lift-Runs r = Runs-quiet ports.dates _ (λ w. refl)

  tell-Runs : (e : Event) → Runs ports.dates 0 (tell ports options e)
  unfolding tell
  tell-Runs e = Runs-quiet ports.dates _ (λ w. refl)

  now-Runs : Runs ports.dates 0 (now ports options)
  unfolding now
  now-Runs = Runs-quiet ports.dates _ (λ w. refl)

  -- The repository's calls, one command each.
  store_reject-Runs :
      (c : ClaimedReservationRequest) (a : RejectedAttempt)
      → Runs ports.dates 1 (in_store (reject_claimed c a))
  unfolding run
  store_reject-Runs c a = Runs-command ports.dates _ (Command.reject c a) (λ s. refl)

  store_release-Runs :
      (c : ClaimedReservationRequest) (a : FailedAttempt)
      → Runs ports.dates 1 (in_store (release_claimed c a))
  unfolding run
  store_release-Runs c a = Runs-command ports.dates _ (Command.release c a) (λ s. refl)

  store_fail-Runs :
      (c : ClaimedReservationRequest) (a : FailedAttempt)
      → Runs ports.dates 1 (in_store (fail_claimed c a))
  unfolding run
  store_fail-Runs c a = Runs-command ports.dates _ (Command.fail c a) (λ s. refl)

  store_confirm-Runs :
      (c : ClaimedReservationRequest) (r : Reservation) (a : ConfirmedAttempt)
      → Runs ports.dates 1 (in_store (confirm_claimed c r a))
  unfolding run
  store_confirm-Runs c r a = Runs-command ports.dates _ (Command.confirm c r a) (λ s. refl)

  store_claim-Runs :
      (input : ClaimInput) → Runs ports.dates 1 (in_store (claim_next ports.dates input))
  unfolding run
  store_claim-Runs input = Runs-command ports.dates _ (Command.claim input) (λ s. refl)

  find_conflict-Runs :
      (screening_id : JsString) (seat_ids : List JsString)
      → Runs ports.dates 0 (in_store (find_conflict screening_id seat_ids))
  unfolding find_conflict
  find_conflict-Runs screening_id seat_ids = Runs-quiet ports.dates _ (λ w. refl)

  finish_reject-Runs :
      (c : ClaimedReservationRequest) (a : RejectedAttempt)
      → Runs ports.dates 1 (finish_reject ports options c a)
  finish_reject-Runs c a =
      Runs-bind ports.dates 1 0 (in_store (reject_claimed c a)) (λ r. pure (rejected a r))
        (store_reject-Runs c a) (λ r. pure-Runs (rejected a r))

  finish_confirm-Runs :
      (c : ClaimedReservationRequest) (reservation : Reservation) (a : ConfirmedAttempt)
      → Runs ports.dates 1 (finish_confirm ports options c reservation a)
  finish_confirm-Runs c reservation a =
      Runs-bind ports.dates 1 0 (in_store (confirm_claimed c reservation a))
        (λ r. pure (confirm_outcome ports options a reservation r))
        (store_confirm-Runs c reservation a)
        (λ r. pure-Runs (confirm_outcome ports options a reservation r))

  reject-Runs :
      (c : ClaimedReservationRequest) (started_at id : JsString)
      → Runs ports.dates 1 (reject_for_seat_conflict ports options c started_at id)
  unfolding reject_for_seat_conflict
  reject-Runs c started_at id =
      Runs-bind ports.dates 0 1 (now ports options) _ now-Runs λ completed_at.
        finish_reject-Runs c (rejected_attempt ports options c started_at completed_at id)

  next_reservation_id-Runs : Runs ports.dates 0 (next_reservation_id ports options)
  unfolding next_reservation_id
  next_reservation_id-Runs = Runs-quiet ports.dates _ (λ w. refl)

  claim_token-Runs :
      (input : ProcessingInput) → Runs ports.dates 0 (claim_token ports options input)
  unfolding claim_token
  claim_token-Runs input = Runs-quiet ports.dates _ (λ w. refl)

  confirm-Runs :
      (c : ClaimedReservationRequest) (started_at : JsString)
      → Runs ports.dates 1 (confirm_work_item ports options c started_at)
  unfolding confirm_work_item
  confirm-Runs c started_at =
      Runs-bind ports.dates 0 1 (next_reservation_id ports options) _ next_reservation_id-Runs λ id.
        Runs-bind ports.dates 0 1 (now ports options) _ now-Runs λ confirmed_at.
          Runs-bind ports.dates 0 1
            (lift (create_reservation (reservation_input ports options c id confirmed_at))) _
            (lift-Runs _)
            λ reservation. Runs-bind ports.dates 0 1 (now ports options) _ now-Runs λ completed_at.
              finish_confirm-Runs c reservation
                (confirmed_attempt ports options c started_at completed_at reservation)

  retry_or_fail-Runs :
      (c : ClaimedReservationRequest) (a : FailedAttempt) (n : ℕ)
      → Runs ports.dates 1 (retry_or_give_up ports options c a n)
  retry_or_fail-Runs c a n = elim (Bool-cases (ltb n options.max_transient_failures)) [
    | inl left ↦ rw left (
        Runs-bind ports.dates 1 0 (in_store (release_claimed c a))
          (λ r. pure (retryable_failure a r (options.max_transient_failures - n)))
          (store_release-Runs c a) (λ r. pure-Runs _))
    | inr spent ↦ rw spent (
        Runs-bind ports.dates 1 0 (in_store (fail_claimed c a)) (λ r. pure (failed a r))
          (store_fail-Runs c a) (λ r. pure-Runs _))
  ]

  failure-Runs :
      (c : ClaimedReservationRequest) (started_at : JsString)
      → Runs ports.dates 1 (handle_unexpected_failure ports options c started_at)
  unfolding handle_unexpected_failure
  failure-Runs c started_at =
      Runs-bind ports.dates 0 1 (now ports options) _ now-Runs λ completed_at.
        retry_or_fail-Runs c (failed_attempt ports options c started_at completed_at)
          (c.transient_failure_count + 1)

  throw_if_blocked-Runs :
      (c : ClaimedReservationRequest) → Runs ports.dates 0 (throw_if_blocked ports options c)
  unfolding throw_if_blocked
  throw_if_blocked-Runs c = elim (Bool-cases (ports.should_fail c.reservation_request.id)) [
    | inl blocked ↦ rw blocked (throw-Runs seat_reservation_commit)
    | inr open_now ↦ rw open_now (pure-Runs tt)
  ]

  by_conflict-Runs :
      (c : ClaimedReservationRequest) (started_at : JsString) (conflict : Option Reservation)
      → Runs ports.dates 1 (by_conflict ports options c started_at conflict)
  by_conflict-Runs c started_at none =
      Runs-bind ports.dates 0 1 _ _ (throw_if_blocked-Runs c) (λ u. confirm-Runs c started_at)
  by_conflict-Runs c started_at (some r) = reject-Runs c started_at r.id

  settle-Runs :
      (c : ClaimedReservationRequest) (started_at : JsString)
      → Runs ports.dates 1 (settle_work_item ports options c started_at)
  unfolding settle_work_item
  settle-Runs c started_at =
      Runs-bind ports.dates 0 1 _ _ (find_conflict-Runs _ _) (by_conflict-Runs c started_at)

  record_outcome-Runs :
      (result : ProcessingResult) (c : ClaimedReservationRequest)
      → Runs ports.dates 0 (record_outcome ports options result c)
  unfolding record_outcome
  record_outcome-Runs result c = Runs-quiet ports.dates _ (λ w. refl)

  report-Runs :
      (c : ClaimedReservationRequest) (result : ProcessingResult)
      → Runs ports.dates 0 (report_terminal ports options c result)
  unfolding report_terminal
  report-Runs c result =
      Runs-handle ports.dates 0 0 _ _ _ (record_outcome-Runs result c) (λ u. pure-Runs result)
        (λ e. Runs-bind ports.dates 0 0 _ _ (tell-Runs (exception e)) (λ u. throw-Runs e))

  recover-Runs :
      (c : ClaimedReservationRequest) (started_at : JsString) (e : Error)
      → Runs ports.dates 1 (recover ports options c started_at e)
  unfolding recover
  recover-Runs c started_at e = Runs-bind ports.dates 1 0 _ _ (failure-Runs c started_at) λ result.
      Runs-bind ports.dates 0 0 _ _ (tell-Runs (exception e))
        λ u. Runs-bind ports.dates 0 0 _ _ (record_outcome-Runs result c) (λ u'. pure-Runs result)

  on_claimed-Runs :
      (b : Bool) (c : ClaimedReservationRequest)
      → Runs ports.dates 0 (call_on_claimed ports options b c)
  on_claimed-Runs true c = tell-Runs (on_claimed c)
  on_claimed-Runs false c = pure-Runs tt

  process_claimed-Runs :
      (c : ClaimedReservationRequest) (input : ProcessingInput) (started_at : JsString)
      → Runs ports.dates 2 (process_claimed ports options c input started_at)
  unfolding process_claimed
  process_claimed-Runs c input started_at = Runs-bind ports.dates 0 2 _ _ (tell-Runs _) λ u.
      Runs-bind ports.dates 0 2 _ _ (on_claimed-Runs input.has_on_claimed c) λ u'.
        Runs-handle ports.dates 1 1 _ _ _ (settle-Runs c started_at)
          (λ result. Runs-weaken ports.dates 0 1 _ (omega arith) (report-Runs c result))
          (recover-Runs c started_at)

  by_claim-Runs :
      (input : ProcessingInput) (started_at : JsString) (c : Option ClaimedReservationRequest)
      → Runs ports.dates 2 (by_claim ports options input started_at c)
  by_claim-Runs input started_at none =
      Runs-weaken ports.dates 0 2 _ (omega arith)
        (Runs-bind ports.dates 0 0 _ _ (tell-Runs idle) (λ u. pure-Runs no_pending_request))
  by_claim-Runs input started_at (some c) =
      Runs-bind ports.dates 0 2 _ _ (tell-Runs _) (λ u. process_claimed-Runs c input started_at)

  -- One call of the processor makes at most three calls that write to the store: a claim, an
  -- attempt to settle it, and the record of a failure.
  pub process_next-Runs :
      (input : ProcessingInput) → Runs ports.dates 3 (process_next ports options input)
  unfolding process_next
  process_next-Runs input = Runs-bind ports.dates 0 3 (now ports options) _ now-Runs λ started_at.
      Runs-bind ports.dates 0 3 _ _ (claim_token-Runs input) λ token.
        Runs-bind ports.dates 0 3
          (lift (add_milliseconds ports.dates started_at options.claim_lease_ms)) _ (lift-Runs _)
          λ expires_at.
            Runs-bind ports.dates 1 2
              (in_store
                (claim_next ports.dates (claim_input ports options token started_at expires_at)))
              _ (store_claim-Runs (claim_input ports options token started_at expires_at))
              (by_claim-Runs input started_at)
