-- ===== src/Processor/Reports.antt =====
-- The results of `processNextPendingRequest` and the store.
use movie_reservation_servic.Prelude.{
  subst, ◌+◌, ◌≡◌, refl, Bool, true, false, Option, none, some, JsString, ok, pure, throw, lift,
  ◌>>=◌,
}
use movie_reservation_servic.Errors.{Error}
use movie_reservation_servic.Dates.{add_milliseconds}
use movie_reservation_servic.Work.{ClaimedReservationRequest, ClaimInput}
use movie_reservation_servic.Memory.Invariant.{IsWellFormed}
use movie_reservation_servic.Memory.Claim.{claim_next}
use movie_reservation_servic.Processor.World
use movie_reservation_servic.Processor.World.{
  World, in_store, Ports, Options, Event, ProcessingInput, ProcessingResult, idle, exception,
  on_claimed, span, claimed, attributes_of,
}
use movie_reservation_servic.Processor.Steps.{
  tell, now, claim_token, record_outcome, handle_unexpected_failure, settle_work_item,
  report_terminal, recover, process_claimed, process_next, call_on_claimed, by_claim, claim_input,
}
use movie_reservation_servic.Processor.Triples.{
  Post, Post-weaken, Anything, Triple, Triple-quiet, Triple-store, Triple-bind, Triple-handle,
}
use movie_reservation_servic.Processor.Stored.{IsStanding}
use movie_reservation_servic.Processor.Handed.{IsHanded, claim_next-Post}
use movie_reservation_servic.Processor.Reported.{IsReported, Reports, after_quiet, report}
use movie_reservation_servic.Processor.Attempted.{settle-Reports}
use movie_reservation_servic.Processor.Retried.{failure-Reports}

module _ (ports : Ports) (options : Options) where
  tell-quiet : (e : Event) (w : World) → (tell ports options e w).1.store ≡ w.store
  unfolding tell
  tell-quiet e w = refl

  module _ (started_at : JsString) (c : ClaimedReservationRequest) where
    report_terminal-Reports :
        (result : ProcessingResult)
        → Triple
            (IsStanding c)
            (IsReported ports options started_at result)
            (report_terminal ports options c result)
            (IsReported ports options started_at)
    unfolding report_terminal
    report_terminal-Reports result =
        Triple-handle (IsStanding c) (IsReported ports options started_at result)
          (λ u. IsReported ports options started_at result) (IsReported ports options started_at)
          (record_outcome ports options result c) _ _
          (Triple-quiet (IsStanding c) (IsReported ports options started_at result) _ (λ w. refl))
          (λ u. report ports options started_at c result)
          (λ e.
            after_quiet ports options started_at c (tell ports options (exception e)) (λ u. throw e)
              (λ w. refl) (λ u. record { at = λ w h p. h }))

    recover-Reports :
        (e : Error) → Reports ports options started_at c (recover ports options c started_at e)
    unfolding recover
    recover-Reports e =
        Triple-bind (IsStanding c) Anything (IsReported ports options started_at)
          (IsReported ports options started_at)
          (handle_unexpected_failure ports options c started_at) _
          (failure-Reports ports options started_at c)
          λ result.
            Triple-bind (IsStanding c) (IsReported ports options started_at result)
              (λ u. IsReported ports options started_at result)
              (IsReported ports options started_at) (tell ports options (exception e)) _
              (Triple-quiet (IsStanding c) (IsReported ports options started_at result) _
                (λ w. refl))
              λ u.
                Triple-bind (IsStanding c) (IsReported ports options started_at result)
                  (λ u'. IsReported ports options started_at result)
                  (IsReported ports options started_at) (record_outcome ports options result c) _
                  (Triple-quiet (IsStanding c) (IsReported ports options started_at result) _
                    (λ w. refl))
                  (λ u'. report ports options started_at c result)

    on_claimed-quiet :
        (b : Bool) (w : World) → (call_on_claimed ports options b c w).1.store ≡ w.store
    on_claimed-quiet true w = tell-quiet (on_claimed c) w
    on_claimed-quiet false w = refl

    process_claimed-Reports :
        (input : ProcessingInput)
        → Reports ports options started_at c (process_claimed ports options c input started_at)
    unfolding process_claimed
    process_claimed-Reports input =
        after_quiet ports options started_at c (tell ports options (claimed (attributes_of c))) _
          (tell-quiet (claimed (attributes_of c)))
          λ u.
            after_quiet ports options started_at c
              (call_on_claimed ports options input.has_on_claimed c) _
              (on_claimed-quiet input.has_on_claimed)
              λ u'.
                Triple-handle (IsStanding c) Anything (IsReported ports options started_at)
                  (IsReported ports options started_at)
                  (settle_work_item ports options c started_at) _ _
                  (settle-Reports ports options started_at c) report_terminal-Reports
                  recover-Reports

  -- What the claim has handed out is processed from where the claim left the store.
  by_claim-Reports :
      (limits : ClaimInput) (input : ProcessingInput)
      → limits.max_lease_timeouts ≡ options.max_lease_timeouts
      → limits.max_transient_failures ≡ options.max_transient_failures
      → (c : Option ClaimedReservationRequest)
      → Triple IsWellFormed
          (IsHanded ports.dates limits c)
          (by_claim ports options input limits.claimed_at c)
          (IsReported ports options limits.claimed_at)
  by_claim-Reports limits input leases failures none =
      Triple-bind IsWellFormed (IsHanded ports.dates limits none)
        (λ u. IsHanded ports.dates limits none) (IsReported ports options limits.claimed_at)
        (tell ports options idle) (λ u. pure World.ProcessingResult.no_pending_request)
        (Triple-quiet IsWellFormed (IsHanded ports.dates limits none) _ (tell-quiet idle))
        (λ u. record { at = λ w h p. (h, (limits, refl, leases, failures, p)) })
  by_claim-Reports limits input leases failures (some c) = record {
    at = λ w h p.
        let run =
          after_quiet ports options limits.claimed_at c
            (tell ports options (span (attributes_of c)))
            (λ u. process_claimed ports options c input limits.claimed_at)
            (tell-quiet (span (attributes_of c)))
            (λ u. process_claimed-Reports limits.claimed_at c input) in
        Post-weaken (IsStanding c) IsWellFormed (IsReported ports options limits.claimed_at)
          (IsReported ports options limits.claimed_at) _ _ (λ k. k.well) (λ a k q. q)
          (run.at w p tt);
  }

  -- The part of `process_next` after the first reading of the clock
  after_clock-Reports :
      (input : ProcessingInput) (started_at : JsString)
      → Triple IsWellFormed Anything
          (claim_token ports options input >>= λ token.
            lift (add_milliseconds ports.dates started_at options.claim_lease_ms) >>= λ expires_at.
            in_store
              (claim_next ports.dates (claim_input ports options token started_at expires_at))
            >>= λ c. by_claim ports options input started_at c)
          (IsReported ports options started_at)
  unfolding claim_token
  after_clock-Reports input started_at =
      let Q = IsReported ports options started_at in
      Triple-bind IsWellFormed Anything (λ a. Anything) Q (claim_token ports options input) _
        (Triple-quiet IsWellFormed Anything _ (λ w. refl))
        λ token.
          Triple-bind IsWellFormed Anything (λ a. Anything) Q
            (lift (add_milliseconds ports.dates started_at options.claim_lease_ms)) _
            (Triple-quiet IsWellFormed Anything _ (λ w. refl))
            λ expires_at.
              let limits = claim_input ports options token started_at expires_at in
              Triple-bind IsWellFormed Anything (IsHanded ports.dates limits) Q
                (in_store (claim_next ports.dates limits)) _
                (Triple-store IsWellFormed Anything (claim_next ports.dates limits) _
                  (λ s h u. claim_next-Post ports.dates limits s h))
                (by_claim-Reports limits input refl refl)

  -- From a well-formed store, what a job returns is true of the store that it leaves. A request in
  -- the result is stored with the status that the result names and without a claim, and the attempt
  -- in the result is the last one recorded for it, under its number. A confirmation's reservation is
  -- stored, is the one that the request asks for, and the failure policy does not block the request;
  -- a rejection names the first reservation that holds one of the seats; a retry has as many attempts
  -- left as the stored count of transient failures leaves of the maximum, and at least one; a failure
  -- has reached that maximum. With no request in the result, no stored request could be claimed at
  -- the time the job started, or one was given up whose lease timeouts were spent.
  pub process_next-IsReported :
      (input : ProcessingInput) (w : World) (result : ProcessingResult)
      → IsWellFormed w.store
      → (process_next ports options input w).0 ≡ ok result
      → IsReported ports options
          (ports.now_iso_string w.clock_calls)
          result
          (process_next ports options input w).1.store
  unfolding process_next now
  process_next-IsReported input w result h e =
      let w' : World = record w { clock_calls = w.clock_calls + 1 } in
      let started_at = ports.now_iso_string w.clock_calls in
      let p = (after_clock-Reports input started_at).at w' h tt in
      (subst
        (λ x.
          Post IsWellFormed (IsReported ports options started_at) x
            (process_next ports options input w).1.store)
        e p).1
