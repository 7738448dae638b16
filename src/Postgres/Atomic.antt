-- ===== src/Postgres/Atomic.antt =====
-- The transactions of src/infrastructure/repositories/postgres: what they have written when they
-- return, and when they throw.
use movie_reservation_servic.Prelude.{
  ◌≡◌, inl, inr, arith, [], ◌∷◌, ◌++◌, Bool, ok, err, Exec, pure, ◌>>=◌, ◌>>◌, Result-cases,
}
use movie_reservation_servic.Errors.{Error}
use movie_reservation_servic.Domain.Request.{ReservationRequestStatus, ReservationRequest}
use movie_reservation_servic.Work.{ClaimedReservationRequest, ProcessingAttempt}
use movie_reservation_servic.Postgres.Rows.{ReservationRequestRow, Timestamp}
use movie_reservation_servic.Postgres.Tables.{Tables, Engine}
use movie_reservation_servic.Postgres.State.{
  require_claimed, update_claimed_status, insert_attempt, attempt_row, attempt_base, settle,
}
use movie_reservation_servic.Postgres.Held.{Owns, require_claimed-Owns}
use movie_reservation_servic.Postgres.Outcomes.{
  >>=-ok, restated, update_claimed_status-ok, insert_attempt-ok,
}

-- A claimed request has been settled: its worker owned it, its row has the new status and no
-- claim, and one attempt has been appended.
pub record Settled (e : Engine) (item : ClaimedReservationRequest)
    (status : ReservationRequestStatus) (increments : Bool) (attempt : ProcessingAttempt)
    (q : ReservationRequest) (t t' : Tables) : Type 0 where
  pub row : ReservationRequestRow
  pub owned : Owns item t row
  pub started : Timestamp
  pub completed : Timestamp
  pub started_at : e.timestamptz (attempt_base attempt).started_at ≡ ok started
  pub completed_at : e.timestamptz (attempt_base attempt).completed_at ≡ ok completed
  pub after : t' ≡ record (restated e item status increments t) {
    attempts = t.attempts ++ attempt_row started completed attempt ∷ [];
  }
  pub answered : q.status ≡ status

module _ (e : Engine) where
  module _ {A : Type 0} (body : Exec Tables A) (t t' : Tables) where
    pub transaction-ok : (a : A) → e.transaction body t ≡ (ok a, t') → body t ≡ (ok a, t')
    transaction-ok a h = elim (Result-cases (body t).0) [
      | inl (b, eb) ↦ ground (arith, e.transaction-commit body b t (body t).1)
      | inr (x, ex) ↦ absurd (ground (arith, e.transaction-rollback body x t (body t).1))
    ]

    pub transaction-err : (x : Error) → e.transaction body t ≡ (err x, t') → t' ≡ t
    transaction-err x h = elim (Result-cases (body t).0) [
      | inl (b, eb) ↦ absurd (ground (arith, e.transaction-commit body b t (body t).1))
      | inr (y, ey) ↦ ground (arith, e.transaction-rollback body y t (body t).1)
    ]

  -- The two writes that end every settlement.
  abbrev write :
      ClaimedReservationRequest
      → ReservationRequestStatus
      → Bool
      → ProcessingAttempt
      → Exec Tables ReservationRequest
  write item status increments attempt =
      update_claimed_status e item status increments >>= λ r. insert_attempt e attempt >> pure r

  module _ (item : ClaimedReservationRequest) (status : ReservationRequestStatus)
      (increments : Bool) (attempt : ProcessingAttempt) (q : ReservationRequest)
      (t t' : Tables) where
    pub write-Settled :
        (row : ReservationRequestRow)
        → Owns item t row
        → write item status increments attempt t ≡ (ok q, t')
        → Settled e item status increments attempt q t t'
    write-Settled row owned h =
        let (r, t₁, e₁, h₁) =
          >>=-ok (update_claimed_status e item status increments)
            (λ r. insert_attempt e attempt >> pure r) q t t' h in
        let (u, t₂, e₂, h₂) = >>=-ok (insert_attempt e attempt) (λ u. pure r) q t₁ t' h₁ in
        let (same₁, answered) = update_claimed_status-ok e item status increments t t₁ r e₁ in
        let (started, completed, es, ec, same₂) = insert_attempt-ok e attempt t₁ t₂ e₂ in
        record {
          row = row;
          owned = owned;
          started = started;
          completed = completed;
          started_at = es;
          completed_at = ec;
          after = ground arith;
          answered = ground arith;
        }

    pub settle-Settled :
        settle e item status increments attempt t ≡ (ok q, t')
        → Settled e item status increments attempt q t t'
    unfolding settle
    settle-Settled h =
        let (row, t₁, e₁, h₁) =
          >>=-ok (require_claimed item) (λ row. write item status increments attempt) q t t' h in
        let (owned, same) = require_claimed-Owns item t row t₁ e₁ in
        write-Settled row owned (ground (arith, same, h₁))
