-- ===== src/Postgres/Claimer.antt =====
-- src/infrastructure/repositories/postgres/postgres-reservation-request-claimer.ts
use movie_reservation_servic.Prelude.{
  ◌+◌, Bool, true, not, ◌&&◌, ◌||◌, Option, none, some, length, JsString, ◌===◌, is_text, Result,
  Exec, pure, lift, gets, ◌>>=◌, ◌>>◌, filter, ltb, leb, ◌==◌, if◌then◌else◌,
}
use movie_reservation_servic.Errors.{not_claimed}
use movie_reservation_servic.Dates.{Dates}
use movie_reservation_servic.Domain.Request.{requested, processing, create_sequence}
use movie_reservation_servic.Work.{ClaimedReservationRequest, ClaimInput}
use movie_reservation_servic.Postgres.Rows.{Timestamp, ReservationRequestRow}
use movie_reservation_servic.Postgres.Mappers.{
  status_text, to_iso_text, to_reservation_request, to_observability_context,
}
use movie_reservation_servic.Postgres.Tables.{
  Tables, Engine, first, order_by, has_request_id, update_requests,
}
use movie_reservation_servic.Postgres.State.{
  require_single_row, find_request_seat_ids, fail_expired_claim,
}

-- `claim_expires_at` is null or not after the time
abbrev pub expires_by : Engine → Option Timestamp → Timestamp → Bool
expires_by e none at = true
expires_by e (some expires_at) at = e.at_or_before expires_at at

-- The condition of the query of `findNextClaimableReservationRequestRow`
unfoldable pub is_claimable : Engine → ClaimInput → Timestamp → ReservationRequestRow → Bool
is_claimable e input at row =
    (row.status === status_text requested
      && ltb row.transient_failure_count input.max_transient_failures)
    || (row.status === status_text processing && expires_by e row.claim_expires_at at)

abbrev pub sequence_order : ReservationRequestRow → ReservationRequestRow → Bool
sequence_order a b = leb a.sequence b.sequence

-- `findNextClaimableReservationRequestRow`
unfoldable pub find_next_claimable :
    Engine → ClaimInput → Exec Tables (Option ReservationRequestRow)
unfolding is_claimable order_by filter
find_next_claimable e input = do
  at ← lift (e.timestamptz input.claimed_at)
  gets (λ t. first (
      filter (λ row. not (e.is_locked t row))
        (order_by sequence_order (filter (is_claimable e input at) t.requests))))

-- The columns that `claimReservationRequestRow` writes
abbrev pub with_claim :
    ClaimInput → Timestamp → Timestamp → Bool → ReservationRequestRow → ReservationRequestRow
with_claim input claimed_at expires_at increments row = record row {
  status = status_text processing;
  claimed_by = some input.worker_id;
  claim_token = some input.claim_token;
  claimed_at = some claimed_at;
  claim_expires_at = some expires_at;
  last_heartbeat_at = some claimed_at;
  lease_timeout_count = if increments then row.lease_timeout_count + 1 else row.lease_timeout_count;
  updated_at = claimed_at;
}

-- `claimReservationRequestRow`
unfoldable pub claim_row :
    Engine → ReservationRequestRow → ClaimInput → Bool → Exec Tables ReservationRequestRow
unfolding update_requests
claim_row e row input increments = do
  claimed_at ← lift (e.timestamptz input.claimed_at)
  expires_at ← lift (e.timestamptz input.claim_expires_at)
  updated_rows ←
      update_requests (has_request_id row.id) (with_claim input claimed_at expires_at increments)
  lift (require_single_row updated_rows (not_claimed row.id))

-- `toIsoString(column ?? text)`
abbrev pub iso_or_input : Dates → Option Timestamp → JsString → Result JsString
iso_or_input d none s = to_iso_text d (Timestamp.date_text s)
iso_or_input d (some at) s = to_iso_text d at

-- The work item that `claimNextPendingReservationRequest` returns
unfoldable pub to_claimed :
    Engine → Dates → ClaimInput → ReservationRequestRow → Exec Tables ClaimedReservationRequest
unfolding find_request_seat_ids to_reservation_request to_observability_context create_sequence
    to_iso_text
to_claimed e d input row = do
  seat_ids ← find_request_seat_ids e row.id
  request ← lift (to_reservation_request row seat_ids)
  sequence ← lift (create_sequence row.sequence)
  claimed_at ← lift (iso_or_input d row.claimed_at input.claimed_at)
  claim_expires_at ← lift (iso_or_input d row.claim_expires_at input.claim_expires_at)
  pure (record {
    reservation_request = request;
    observability_context = to_observability_context row;
    sequence = sequence;
    claimed_by = input.worker_id;
    claim_token = input.claim_token;
    claimed_at = claimed_at;
    claim_expires_at = claim_expires_at;
    lease_timeout_count = row.lease_timeout_count;
    transient_failure_count = row.transient_failure_count;
  })

-- The rest of the transaction, with the row that was selected
unfoldable pub claim_selected :
    Engine
    → Dates
    → ClaimInput
    → ReservationRequestRow
    → Exec Tables (Option ClaimedReservationRequest)
unfolding fail_expired_claim claim_row to_claimed
claim_selected e d input selected =
    let is_lease_timeout_reclaim = selected.status === status_text processing in
    if is_lease_timeout_reclaim && leb input.max_lease_timeouts selected.lease_timeout_count
    then (do fail_expired_claim e selected input.claimed_at; pure none)
    else (do
      updated ← claim_row e selected input is_lease_timeout_reclaim
      item ← to_claimed e d input updated
      pure (some item))

abbrev pub claim_if_selected :
    Engine
    → Dates
    → ClaimInput
    → Option ReservationRequestRow
    → Exec Tables (Option ClaimedReservationRequest)
claim_if_selected e d input none = pure none
claim_if_selected e d input (some selected) = claim_selected e d input selected

-- The body of the transaction of `claimNextPendingReservationRequest`
unfoldable pub claim_body :
    Engine → Dates → ClaimInput → Exec Tables (Option ClaimedReservationRequest)
unfolding find_next_claimable claim_selected
claim_body e d input = do
  selected ← find_next_claimable e input
  claim_if_selected e d input selected

-- `claimNextPendingReservationRequest`
unfoldable pub claim_next :
    Engine → Dates → ClaimInput → Exec Tables (Option ClaimedReservationRequest)
unfolding claim_body
claim_next e d input = e.transaction (claim_body e d input)

-- The condition of the update of `heartbeatClaimedReservationRequest`
unfoldable pub is_held : ClaimedReservationRequest → ReservationRequestRow → Bool
is_held item row =
    row.id === item.reservation_request.id
    && row.status === status_text processing
    && is_text row.claimed_by item.claimed_by
    && is_text row.claim_token item.claim_token

-- `heartbeatClaimedReservationRequest`
unfoldable pub heartbeat :
    Engine → ClaimedReservationRequest → JsString → JsString → Exec Tables Bool
unfolding is_held update_requests
heartbeat e item heartbeat_at claim_expires_at = do
  beat_at ← lift (e.timestamptz heartbeat_at)
  expires_at ← lift (e.timestamptz claim_expires_at)
  updated_rows ← update_requests (is_held item) (λ row. record row {
    claim_expires_at = some expires_at;
    last_heartbeat_at = some beat_at;
    updated_at = beat_at;
  })
  pure (length updated_rows == 1)
