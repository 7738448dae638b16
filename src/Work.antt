-- ===== src/Work.antt =====
-- What the processor and the repositories exchange: claims, attempts and their contexts
-- (src/application/movie-reservations).
use movie_reservation_servic.Prelude.{ℕ, JsString, Option}
use movie_reservation_servic.Domain.Request.{ReservationRequest}

-- ports/reservation-work-observability-context-provider.ts
pub record ObservabilityContext : Type 0 where
  pub correlation_id : JsString
  pub request_id : JsString
  pub traceparent : JsString
  pub tracestate : Option JsString

-- claimed-reservation-request.ts
pub record ClaimedReservationRequest : Type 0 where
  pub reservation_request : ReservationRequest
  pub observability_context : Option ObservabilityContext
  pub sequence : ℕ
  pub claimed_by : JsString
  pub claim_token : JsString
  pub claimed_at : JsString
  pub claim_expires_at : JsString
  pub lease_timeout_count : ℕ
  pub transient_failure_count : ℕ

-- reservation-request-processing-attempt.ts
pub record AttemptBase : Type 0 where
  pub reservation_request_id : JsString
  pub sequence : ℕ
  pub started_at : JsString
  pub completed_at : JsString

pub record ConfirmedAttempt : Type 0 where
  pub base : AttemptBase
  pub reservation_id : JsString

pub record RejectedAttempt : Type 0 where
  pub base : AttemptBase
  pub conflicting_reservation_id : JsString

pub data FailureReason : Type 0 where
  unexpected_error lease_timeout : FailureReason

pub record FailedAttempt : Type 0 where
  pub base : AttemptBase
  pub reason : FailureReason

pub data ProcessingAttempt : Type 0 where
  confirmed : ConfirmedAttempt → ProcessingAttempt
  rejected : RejectedAttempt → ProcessingAttempt
  failed : FailedAttempt → ProcessingAttempt

-- ports/reservation-request-work-repository.ts
pub record ClaimInput : Type 0 where
  pub worker_id : JsString
  pub claim_token : JsString
  pub claimed_at : JsString
  pub claim_expires_at : JsString
  pub max_lease_timeouts : ℕ
  pub max_transient_failures : ℕ

pub data ConfirmResult : Type 0 where
  confirmed : ReservationRequest → ConfirmResult
  rejected : ReservationRequest → RejectedAttempt → ConfirmResult
