-- ===== src/Memory/Claim.antt =====
-- Claiming and heartbeats, of
-- src/infrastructure/repositories/in-memory/in-memory-reservation-request-work.repository.ts.
-- Each method is an action on the shared store; the code between two suspensions runs without
-- interruption.
use movie_reservation_servic.Prelude.{
  ℕ, ◌+◌, Bool, true, false, not, ◌&&◌, Option, none, some, List, [], ◌∷◌, JsString, Result, ok,
  err, Exec, pure, lift, gets, ◌>>=◌, ◌>>◌, ltb, leb, if◌then◌else◌,
}
use movie_reservation_servic.Prelude.JsMap.{JsMap, get, values}
use movie_reservation_servic.Dates.{Dates, not_after}
use movie_reservation_servic.Domain.Request.{
  requested, processing, ReservationRequest, same_status, start_processing, fail_request,
}
use movie_reservation_servic.Work
use movie_reservation_servic.Work.{
  ClaimedReservationRequest, lease_timeout, ProcessingAttempt, ClaimInput,
}
use movie_reservation_servic.Memory.Store.{
  WorkMetadata, Store, put_request, update_metadata, metadata_of, get_metadata, record_attempt,
}
use movie_reservation_servic.Memory.Metadata.{unclaimed, holds_claim}

abbrev pub expires_by : Dates → Option JsString → JsString → Bool
expires_by d none now = true
expires_by d (some claim_expires_at) now = not_after d claim_expires_at now

-- `isExpiredProcessingRequest`
unfoldable pub is_expired : Dates → ReservationRequest → WorkMetadata → JsString → Bool
is_expired d r m now = same_status r.status processing && expires_by d m.claim_expires_at now

abbrev pub one_if : Bool → ℕ
one_if true = 1
one_if false = 0

-- The work item that the scan remembers.
abbrev pub candidate :
    Dates → ClaimInput → ReservationRequest → WorkMetadata → ClaimedReservationRequest
candidate d input r m = record {
  reservation_request = r;
  observability_context = m.observability_context;
  sequence = m.sequence;
  claimed_by = input.worker_id;
  claim_token = input.claim_token;
  claimed_at = input.claimed_at;
  claim_expires_at = input.claim_expires_at;
  lease_timeout_count = m.lease_timeout_count + one_if (is_expired d r m input.claimed_at);
  transient_failure_count = m.transient_failure_count;
}

abbrev pub is_earlier : ℕ → Option ClaimedReservationRequest → Bool
is_earlier sequence none = true
is_earlier sequence (some c) = ltb sequence c.sequence

-- One round of the scan; the first two branches are its `continue`s.
unfoldable pub consider :
    Dates
    → ClaimInput
    → ReservationRequest
    → WorkMetadata
    → Option ClaimedReservationRequest
    → Option ClaimedReservationRequest
consider d input r m next =
    if same_status r.status requested && leb input.max_transient_failures m.transient_failure_count
    then next
    else if not (same_status r.status requested) && not (is_expired d r m input.claimed_at)
    then next
    else if is_earlier m.sequence next
    then some (candidate d input r m)
    else next

-- The scan over `reservationRequestsById.values()`.
unfoldable pub scan :
    Dates
    → ClaimInput
    → JsMap WorkMetadata
    → List ReservationRequest
    → Option ClaimedReservationRequest
    → Result (Option ClaimedReservationRequest)
scan d input metadata [] next = ok next
scan d input metadata (r ∷ rs) next = elim (metadata_of metadata r.id) [
  | ok m ↦ scan d input metadata rs (consider d input r m next)
  | err e ↦ err e
]

-- The attempt that records an abandoned claim.
abbrev pub lease_timeout_attempt : ReservationRequest → ℕ → JsString → ProcessingAttempt
lease_timeout_attempt r sequence failed_at = Work.ProcessingAttempt.failed (record {
  base = record {
    reservation_request_id = r.id;
    sequence = sequence;
    started_at = failed_at;
    completed_at = failed_at;
  };
  reason = lease_timeout;
})

-- `failExpiredClaimAfterLeaseTimeoutBudget`
unfoldable pub fail_expired_claim : ReservationRequest → JsString → Exec Store (Unit {0})
unfolding fail_request get_metadata record_attempt
fail_expired_claim r failed_at = do
  failed_request ← lift (fail_request r)
  m ← get_metadata r.id
  put_request failed_request
  update_metadata failed_request.id (unclaimed m)
  record_attempt (lease_timeout_attempt r m.sequence failed_at)

-- The metadata that a claim writes.
abbrev pub claim_metadata : ClaimInput → ClaimedReservationRequest → WorkMetadata
claim_metadata input next = record {
  sequence = next.sequence;
  observability_context = next.observability_context;
  lease_timeout_count = next.lease_timeout_count;
  transient_failure_count = next.transient_failure_count;
  claimed_by = some input.worker_id;
  claim_token = some input.claim_token;
  claimed_at = some input.claimed_at;
  claim_expires_at = some input.claim_expires_at;
  last_heartbeat_at = some input.claimed_at;
}

-- A reclaimed request is PROCESSING already; any other is moved there.
abbrev processing_request : ReservationRequest → Result ReservationRequest
processing_request r = if same_status r.status processing then ok r else start_processing r

-- `failExpiredClaimAfterLeaseTimeoutBudget` and `return null`
abbrev abandon :
    ClaimInput → ClaimedReservationRequest → Exec Store (Option ClaimedReservationRequest)
abandon input next = do fail_expired_claim next.reservation_request input.claimed_at; pure none

-- The writes of a claim.
abbrev own : ClaimInput → ClaimedReservationRequest → Exec Store (Option ClaimedReservationRequest)
own input next = do
  r ← lift (processing_request next.reservation_request)
  put_request r
  update_metadata r.id (claim_metadata input next)
  pure (some (record next { reservation_request = r }))

-- What follows the scan, for the work item that it found.
unfoldable pub take_over :
    Dates → ClaimInput → ClaimedReservationRequest → Exec Store (Option ClaimedReservationRequest)
unfolding get_metadata fail_expired_claim start_processing
take_over d input next = do
  selected ← get_metadata next.reservation_request.id
  let reclaimed = is_expired d next.reservation_request selected input.claimed_at
  let spent = reclaimed && leb input.max_lease_timeouts selected.lease_timeout_count
  if spent then abandon input next else own input next

abbrev or_null :
    (ClaimedReservationRequest → Exec Store (Option ClaimedReservationRequest))
    → Option ClaimedReservationRequest
    → Exec Store (Option ClaimedReservationRequest)
or_null f none = pure none
or_null f (some c) = f c

-- `claimNextPendingReservationRequest`
unfoldable pub claim_next : Dates → ClaimInput → Exec Store (Option ClaimedReservationRequest)
claim_next d input = do
  s ← gets (λ s. s)
  next ← lift (scan d input s.work_metadata (values s.requests) none)
  or_null (take_over d input) next

abbrev heartbeat_on :
    ClaimedReservationRequest → JsString → JsString → Option ReservationRequest → Exec Store Bool
heartbeat_on c heartbeat_at claim_expires_at none = pure false
heartbeat_on c heartbeat_at claim_expires_at (some r) =
    if not (same_status r.status processing) then pure false else do
      m ← get_metadata r.id
      if not (holds_claim m c) then pure false else do
        update_metadata r.id (record m {
          claim_expires_at = some claim_expires_at;
          last_heartbeat_at = some heartbeat_at;
        })
        pure true

-- `heartbeatClaimedReservationRequest`
unfoldable pub heartbeat : ClaimedReservationRequest → JsString → JsString → Exec Store Bool
unfolding get_metadata
heartbeat c heartbeat_at claim_expires_at = do
  current ← gets (λ s. get s.requests c.reservation_request.id)
  heartbeat_on c heartbeat_at claim_expires_at current
