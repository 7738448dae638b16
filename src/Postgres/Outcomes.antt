-- ===== src/Postgres/Outcomes.antt =====
-- What the statements of postgres-reservation-request-state-store.ts have written once they have
-- returned.
use movie_reservation_servic.Prelude.{
  ◌≡◌, refl, ◌⊎◌, inl, inr, true, arith, List, [], ◌∷◌, ◌++◌, Bool, JsString, ok, Exec, ◌>>=◌,
  filter, Bool-cases, Result-cases, ◌===◌,
}
use movie_reservation_servic.Domain.Ids.{create_uuid_id}
use movie_reservation_servic.Domain.Request.{
  ReservationRequestStatus, requested, processing, confirmed, rejected, failed, ReservationRequest,
}
use movie_reservation_servic.Work.{
  ClaimedReservationRequest, ProcessingAttempt, FailureReason, unexpected_error, lease_timeout,
}
use movie_reservation_servic.Postgres.Rows.{ReservationRequestRow, Timestamp, AttemptRow}
use movie_reservation_servic.Postgres.Mappers.{parse_status, status_text, to_reservation_request}
use movie_reservation_servic.Postgres.Checks.{has_shape}
use movie_reservation_servic.Postgres.Tables.{
  Tables, Engine, has_request_id, update_where, update_requests, insert_attempt_row,
}
use movie_reservation_servic.Postgres.State.{
  with_status, update_claimed_status, find_request_seat_ids, attempt_row, attempt_base,
  insert_attempt,
}

-- An action in sequence returned, so both parts did.
pub >>=-ok :
    {S A B : Type 0} (m : Exec S A) (f : A → Exec S B) (b : B) (s s'' : S)
    → (m >>= f) s ≡ (ok b, s'')
    → (a : A) × (s' : S) × (m s ≡ (ok a, s')) × (f a s' ≡ (ok b, s''))
>>=-ok m f b s s'' h = elim (Result-cases (m s).0) [
  | inl (a, e) ↦ (a, (m s).1, ground arith, ground arith)
  | inr (x, e) ↦ absurd (ground arith)
]

-- The database's text of a status is read as that status.
pub parse_status-status_text : (s : ReservationRequestStatus) → parse_status (status_text s) ≡ ok s
unfolding parse_status ◌===◌
parse_status-status_text requested = refl
parse_status-status_text processing = refl
parse_status-status_text confirmed = refl
parse_status-status_text rejected = refl
parse_status-status_text failed = refl

pub to_reservation_request-status :
    (row : ReservationRequestRow) (seat_ids : List JsString) (q : ReservationRequest)
    → to_reservation_request row seat_ids ≡ ok q
    → parse_status row.status ≡ ok q.status
unfolding to_reservation_request
to_reservation_request-status row seat_ids q h = ground arith

pub to_reservation_request-id :
    (row : ReservationRequestRow) (seat_ids : List JsString) (q : ReservationRequest)
    → to_reservation_request row seat_ids ≡ ok q
    → create_uuid_id row.id ≡ ok q.id
unfolding to_reservation_request
to_reservation_request-id row seat_ids q h = ground arith

pub FailureReason-cases : (r : FailureReason) → (r ≡ unexpected_error) ⊎ (r ≡ lease_timeout)
FailureReason-cases unexpected_error = inl refl
FailureReason-cases lease_timeout = inr refl

-- Every row that `insertProcessingAttempt` can write passes the check constraint of its table.
pub attempt_row-has_shape :
    (started completed : Timestamp) (a : ProcessingAttempt)
    → has_shape (attempt_row started completed a) ≡ true
unfolding has_shape attempt_row ◌===◌
attempt_row-has_shape started completed (ProcessingAttempt.confirmed a) = refl
attempt_row-has_shape started completed (ProcessingAttempt.rejected a) = refl
attempt_row-has_shape started completed (ProcessingAttempt.failed a) =
    elim (FailureReason-cases a.reason) [ inl e ↦ rw e refl | inr e ↦ rw e refl ]

pub List-cases :
    {A : Type 0} (xs : List A) → (xs ≡ []) ⊎ ((x : A) × (rest : List A) × (xs ≡ x ∷ rest))
List-cases [] = inl refl
List-cases (x ∷ rest) = inr (x, rest, refl)

pub find_request_seat_ids-state :
    (e : Engine) (id : JsString) (t : Tables) → (find_request_seat_ids e id t).1 ≡ t
unfolding find_request_seat_ids
find_request_seat_ids-state e id t = refl

-- A row that passes its check and the references is appended.
insert_attempt_row-ok :
    (e : Engine) (row : AttemptRow) (t t' : Tables)
    → insert_attempt_row e row t ≡ (ok tt, t')
    → t' ≡ record t { attempts = t.attempts ++ row ∷ [] }
unfolding insert_attempt_row
insert_attempt_row-ok e row t t' h = elim (Bool-cases (has_shape row)) [
  | inr bad ↦ absurd (ground arith)
  | inl good ↦
      elim (Result-cases (e.check_references (record t { attempts = t.attempts ++ row ∷ [] }))) [
        | inl (u, fine) ↦ ground arith
        | inr (x, wrong) ↦ absurd (ground arith)
      ]
]

module _ (e : Engine) where
  -- An attempt that was inserted is the last row of its table, with its times as the columns hold
  -- them.
  pub insert_attempt-ok :
      (a : ProcessingAttempt) (t t' : Tables)
      → insert_attempt e a t ≡ (ok tt, t')
      → (started : Timestamp) × (completed : Timestamp) × (e.timestamptz (attempt_base a).started_at
          ≡ ok started)
        × (e.timestamptz (attempt_base a).completed_at ≡ ok completed)
        × (t' ≡ record t { attempts = t.attempts ++ attempt_row started completed a ∷ [] })
  unfolding insert_attempt
  insert_attempt-ok a t t' h = elim (Result-cases (e.timestamptz (attempt_base a).started_at)) [
    | inr (x, bad) ↦ absurd (ground arith)
    | inl (started, es) ↦ elim (Result-cases (e.timestamptz (attempt_base a).completed_at)) [
      | inr (x, bad) ↦ absurd (ground arith)
      | inl (completed, ec) ↦ (
        started,
        completed,
        es,
        ec,
        insert_attempt_row-ok e (attempt_row started completed a) t t' (ground arith),
      )
    ]
  ]

  -- The tables after a claimed request has been given another status.
  abbrev pub restated :
      ClaimedReservationRequest → ReservationRequestStatus → Bool → Tables → Tables
  restated item status increments t = record t {
    requests =
        update_where (has_request_id item.reservation_request.id)
          (with_status e t status increments) t.requests;
  }

  pub update_claimed_status-ok :
      (item : ClaimedReservationRequest) (status : ReservationRequestStatus) (increments : Bool)
      (t t' : Tables) (q : ReservationRequest)
      → update_claimed_status e item status increments t ≡ (ok q, t')
      → (t' ≡ restated item status increments t) × (q.status ≡ status)
  unfolding update_claimed_status update_requests
  update_claimed_status-ok item status increments t t' q h =
      elim (List-cases (filter (has_request_id item.reservation_request.id) t.requests)) [
        | inl empty ↦ absurd (ground (arith, empty))
        | inr (row, rest, e_rows) ↦
            let f = with_status e t status increments in
            let t₁ = restated item status increments t in
            elim (Result-cases (find_request_seat_ids e row.id t₁).0) [
              | inr (x, bad) ↦ absurd (ground (arith, find_request_seat_ids-state e row.id t₁))
              | inl (seat_ids, e_seats) ↦ ground (
                arith,
                find_request_seat_ids-state e row.id t₁,
                to_reservation_request-status (f row) seat_ids q,
                parse_status-status_text status,
              )
            ]
      ]
