-- ===== src/Processor/Reported.antt =====
-- What a result of `processNextPendingRequest` says of the store that it leaves.
use movie_reservation_servic.Prelude.{
  ℕ, ◌+◌, ◌<◌, ◌≡◌, ◌≤◌, ◌⊎◌, false, JsString, Exec, pure, ◌>>=◌,
}
use movie_reservation_servic.Domain.Request.{requested, failed}
use movie_reservation_servic.Memory.Fifo.{IsIdle}
use movie_reservation_servic.Work
use movie_reservation_servic.Work.{ClaimedReservationRequest, ClaimInput}
use movie_reservation_servic.Memory.Store.{Store}
use movie_reservation_servic.Processor.World
use movie_reservation_servic.Processor.World.{World, Ports, Options, ProcessingResult}
use movie_reservation_servic.Processor.Triples.{Anything, Triple, Triple-quiet, Triple-bind}
use movie_reservation_servic.Processor.Stored.{IsEnded, IsRejected, IsConfirmed, IsStanding}
use movie_reservation_servic.Processor.Handed.{IsGivenUp}

module _ (ports : Ports) (options : Options) where
  -- What a job that found nothing to process leaves, under the limits of the options
  abbrev pub IsVacant : JsString → Store → Type 0
  IsVacant started_at s =
      (input : ClaimInput) × (input.claimed_at ≡ started_at)
      × (input.max_lease_timeouts ≡ options.max_lease_timeouts)
      × (input.max_transient_failures ≡ options.max_transient_failures)
      × (IsIdle ports.dates input s ⊎ IsGivenUp input s)

  -- The result is true of the store.
  abbrev pub IsReported : JsString → ProcessingResult → Store → Type 0
  IsReported started_at World.ProcessingResult.no_pending_request s = IsVacant started_at s
  IsReported started_at (World.ProcessingResult.confirmed a r reservation) s =
      IsConfirmed a r reservation s × (ports.should_fail r.id ≡ false)
  IsReported started_at (World.ProcessingResult.rejected a r) s = IsRejected a r s
  IsReported started_at (World.ProcessingResult.retryable_failure a r left) s =
      (n : ℕ) × IsEnded s r requested (Work.ProcessingAttempt.failed a) n
      × (n + left ≡ options.max_transient_failures)
      × (0 < left)
  IsReported started_at (World.ProcessingResult.failed a r) s =
      (n : ℕ) × IsEnded s r failed (Work.ProcessingAttempt.failed a) n
      × (options.max_transient_failures ≤ n)

  module _ (started_at : JsString) (c : ClaimedReservationRequest) where
    abbrev pub I : Store → Type 0
    I = IsStanding c

    abbrev pub Reported : ProcessingResult → Store → Type 0
    Reported = IsReported started_at

    -- The action keeps the store standing, and reports what it holds.
    abbrev pub Reports : Exec World ProcessingResult → Type 0
    Reports m = Triple I Anything m Reported

    -- A first step that neither writes nor matters.
    pub after_quiet :
        {A : Type 0} (m : Exec World A) (f : A → Exec World ProcessingResult)
        → ((w : World) → (m w).1.store ≡ w.store)
        → ((a : A) → Reports (f a))
        → Reports (m >>= f)
    after_quiet m f same hf =
        Triple-bind I Anything (λ a. Anything) Reported m f (Triple-quiet I Anything m same) hf

    -- The end of a step: the result is true already.
    pub report : (result : ProcessingResult) → Triple I (Reported result) (pure result) Reported
    report result = record { at = λ w h p. (h, p) }
