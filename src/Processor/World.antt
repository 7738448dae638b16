-- ===== src/Processor/World.antt =====
-- The state, the ports and the results of
-- src/application/movie-reservations/in-process-reservation-request-processor.ts and of
-- ports/reservation-request-processor.ts. The ports are parameters; what the processor tells its
-- observability port is a log, without the durations and the reasons that follow from an outcome.
use movie_reservation_servic.Prelude.{
  ℕ, Bool, Option, none, some, List, JsString, Result, ok, err, Exec,
}
use movie_reservation_servic.Errors.{Error}
use movie_reservation_servic.Dates.{Dates}
use movie_reservation_servic.Domain.Request.{ReservationRequest}
use movie_reservation_servic.Domain.Reservation.{Reservation}
use movie_reservation_servic.Work.{
  ObservabilityContext, ClaimedReservationRequest, ConfirmedAttempt, RejectedAttempt, FailedAttempt,
}
use movie_reservation_servic.Memory.Store.{Store}

-- `ReservationRequestProcessingResult`
pub data ProcessingResult : Type 0 where
  no_pending_request : ProcessingResult
  confirmed : ConfirmedAttempt → ReservationRequest → Reservation → ProcessingResult
  rejected : RejectedAttempt → ReservationRequest → ProcessingResult
  retryable_failure :
      FailedAttempt → ReservationRequest → (attempts_remaining : ℕ) → ProcessingResult
  failed : FailedAttempt → ReservationRequest → ProcessingResult

-- `ReservationProcessorSpanAttributes`
pub record SpanAttributes : Type 0 where
  pub reservation_request_id : JsString
  pub sequence : ℕ
  pub observability_context : Option ObservabilityContext

pub data Outcome : Type 0 where
  no_pending_request confirmed rejected retryable_failure failed : Outcome

-- The calls of `MovieReservationObservability`, and of `onClaimed`.
pub data Event : Type 0 where
  span : SpanAttributes → Event
  claimed : SpanAttributes → Event
  on_claimed : ClaimedReservationRequest → Event
  idle : Event
  outcome : Outcome → SpanAttributes → Event
  exception : Error → Event

-- `InProcessReservationRequestProcessorOptions`
pub record Options : Type 0 where
  pub worker_id : JsString
  pub claim_lease_ms : ℕ
  pub max_lease_timeouts : ℕ
  pub max_transient_failures : ℕ
  pub create_claim_token : Option (ℕ → JsString)

-- The collaborators. A clock or a generator answers by the number of the call; `observe` says what
-- the observability port throws at a call, if it throws.
pub record Ports : Type 0 where
  pub dates : Dates
  pub now_iso_string : ℕ → JsString
  pub generate_reservation_id : ℕ → JsString
  pub random_uuid : ℕ → JsString
  pub should_fail : JsString → Bool
  pub observe : Event → Option Error

pub record World : Type 0 where
  pub store : Store
  pub log : List Event
  pub clock_calls : ℕ
  pub id_calls : ℕ
  pub token_calls : ℕ

-- `ReservationRequestProcessingInput`
pub record ProcessingInput : Type 0 where
  pub claim_token : Option JsString
  pub has_on_claimed : Bool

-- A call of the repository.
abbrev pub in_store : {A : Type 0} → Exec Store A → Exec World A
in_store m w = let (r, s) = m w.store in (r, record w { store = s })

-- `try` with a continuation for what was returned and one for what was thrown; what either of them
-- throws is not caught.
abbrev pub handle :
    {A B : Type 0} → Exec World A → (A → Exec World B) → (Error → Exec World B) → Exec World B
handle m f g w = let (r, w') = m w in elim r [ ok a ↦ f a w' | err e ↦ g e w' ]

abbrev pub raised : Option Error → Result (Unit {0})
raised none = ok tt
raised (some e) = err e

abbrev pub attributes_of : ClaimedReservationRequest → SpanAttributes
attributes_of c = record {
  reservation_request_id = c.reservation_request.id;
  sequence = c.sequence;
  observability_context = c.observability_context;
}
