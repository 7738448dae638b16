-- ===== src/Processor/Retried.antt =====
-- What `handleUnexpectedFailure` reports, and what the store holds then.
use movie_reservation_servic.Prelude.{
  ℕ, ◌+◌, ◌-◌, ◌<◌, ◌≤◌, refl, JsString, pure, arith, Bool-cases, inl, inr, ltb,
}
use movie_reservation_servic.Domain.Request.{requested, failed, ReservationRequest}
use movie_reservation_servic.Work
use movie_reservation_servic.Work.{ClaimedReservationRequest, FailedAttempt}
use movie_reservation_servic.Memory.Settle.{release_claimed, fail_claimed}
use movie_reservation_servic.Processor.World
use movie_reservation_servic.Processor.World.{World, in_store, Ports, Options, ProcessingResult}
use movie_reservation_servic.Processor.Steps.{
  now, handle_unexpected_failure, failed_attempt, retry_or_give_up,
}
use movie_reservation_servic.Processor.Triples.{Anything, Triple, Triple-store, Triple-bind}
use movie_reservation_servic.Processor.Stored.{IsEnded, IsAttemptAt, IsStanding}
use movie_reservation_servic.Processor.Settled.{fail_claimed-Post, release_claimed-Post}
use movie_reservation_servic.Processor.Reported.{IsReported, Reports, after_quiet}

module _ (ports : Ports) (options : Options) (started_at : JsString)
    (c : ClaimedReservationRequest) where
  -- The count of transient failures after one more
  abbrev next_count : ℕ
  next_count = c.transient_failure_count + 1

  retry_report :
      (a : FailedAttempt) (r : ReservationRequest)
      → next_count < options.max_transient_failures
      → Triple
          (IsStanding c)
          (λ s. IsEnded s r requested (Work.ProcessingAttempt.failed a) next_count)
          (pure (
            World.ProcessingResult.retryable_failure a r
              (options.max_transient_failures - next_count)))
          (IsReported ports options started_at)
  retry_report a r few = record {
    at = λ w h p. (h, (next_count, p, ground (arith, few), ground (arith, few)));
  }

  fail_report :
      (a : FailedAttempt) (r : ReservationRequest)
      → options.max_transient_failures ≤ next_count
      → Triple
          (IsStanding c)
          (λ s. IsEnded s r failed (Work.ProcessingAttempt.failed a) next_count)
          (pure (World.ProcessingResult.failed a r))
          (IsReported ports options started_at)
  fail_report a r many = record { at = λ w h p. (h, (next_count, p, many)) }

  retry_or_fail-Reports :
      (a : FailedAttempt)
      → IsAttemptAt c a.base
      → Reports ports options started_at c (retry_or_give_up ports options c a next_count)
  retry_or_fail-Reports a at = elim (Bool-cases (ltb next_count options.max_transient_failures)) [
    | inl left ↦ rw left (
        Triple-bind (IsStanding c) Anything
          (λ r s. IsEnded s r requested (Work.ProcessingAttempt.failed a) next_count)
          (IsReported ports options started_at) (in_store (release_claimed c a)) _
          (Triple-store (IsStanding c) Anything (release_claimed c a) _
            (λ s h u. release_claimed-Post c s h a at))
          (λ r. retry_report a r (ground (arith, left))))
    | inr spent ↦ rw spent (
        Triple-bind (IsStanding c) Anything
          (λ r s. IsEnded s r failed (Work.ProcessingAttempt.failed a) next_count)
          (IsReported ports options started_at) (in_store (fail_claimed c a)) _
          (Triple-store (IsStanding c) Anything (fail_claimed c a) _
            (λ s h u. fail_claimed-Post c s h a at))
          (λ r. fail_report a r (ground (arith, spent))))
  ]

  pub failure-Reports :
      Reports ports options started_at c (handle_unexpected_failure ports options c started_at)
  unfolding handle_unexpected_failure
  failure-Reports =
      after_quiet ports options started_at c (now ports options) _ (λ w. refl)
        λ completed_at.
          retry_or_fail-Reports (failed_attempt ports options c started_at completed_at)
            (refl, refl)
