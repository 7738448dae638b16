-- ===== src/Postgres/Confirm.antt =====
-- What `confirmClaimedReservationRequest` of postgres-reservation-request-work.repository.ts has
-- written, for each of its outcomes.
use movie_reservation_servic.Prelude.{
  ◌≡◌, inl, inr, false, arith, List, [], ◌∷◌, ◌++◌, JsString, ok, lift, ◌===◌, ◌&&◌, ◌>>=◌, ◌>>◌,
  Option-cases, Result-cases, map, filter,
}
use movie_reservation_servic.Domain.Request.{ReservationRequestStatus, ReservationRequest}
use movie_reservation_servic.Domain.Reservation.{Reservation}
use movie_reservation_servic.Work.{ClaimedReservationRequest, ConfirmedAttempt, ProcessingAttempt}
use movie_reservation_servic.Postgres.Rows.{
  ReservationRequestRow, Timestamp, ReservationRow, ReservationSeatRow, ScreeningRow,
}
use movie_reservation_servic.Postgres.Tables.{
  Tables, Engine, first, insert_reservation_row, insert_reservation_seats, takes_taken,
}
use movie_reservation_servic.Postgres.State.{require_claimed, mark_confirmed}
use movie_reservation_servic.Postgres.Booking.{
  confirm_body, insert_reservation, reservation_row, seat_row, require_screening_row,
}
use movie_reservation_servic.Postgres.Held.{Owns, require_claimed-Owns}
use movie_reservation_servic.Postgres.Outcomes.{>>=-ok}
use movie_reservation_servic.Postgres.Atomic.{Settled, write-Settled}

-- The tables with a reservation and its seats
abbrev pub booked : Timestamp → ScreeningRow → Reservation → Tables → Tables
booked at screening reservation t = record t {
  reservations = t.reservations ++ reservation_row at reservation ∷ [];
  reservation_seats =
      t.reservation_seats
      ++ map (seat_row reservation screening.auditorium_id) reservation.seat_ids;
}

insert_reservation_row-ok :
    (e : Engine) (row : ReservationRow) (t t' : Tables)
    → insert_reservation_row e row t ≡ (ok tt, t')
    → t' ≡ record t { reservations = t.reservations ++ row ∷ [] }
unfolding insert_reservation_row
insert_reservation_row-ok e row t t' h =
    elim (Result-cases
      (e.check_references (record t { reservations = t.reservations ++ row ∷ [] }))) [
        | inl (u, fine) ↦ ground arith
        | inr (x, wrong) ↦ absurd (ground arith)
      ]

insert_reservation_seats-ok :
    (e : Engine) (rows : List ReservationSeatRow) (t t' : Tables)
    → insert_reservation_seats e rows t ≡ (ok tt, t')
    → (takes_taken t.reservation_seats rows ≡ false)
      × (t' ≡ record t { reservation_seats = t.reservation_seats ++ rows })
unfolding insert_reservation_seats
insert_reservation_seats-ok e rows t t' h =
    elim (Result-cases
      (e.check_references (record t { reservation_seats = t.reservation_seats ++ rows }))) [
        | inl (u, fine) ↦ ground arith
        | inr (x, wrong) ↦ absurd (ground arith)
      ]

pub require_screening_row-state :
    (p c : JsString) (t t' : Tables) (row : ScreeningRow)
    → require_screening_row p c t ≡ (ok row, t')
    → t' ≡ t
unfolding require_screening_row
require_screening_row-state p c t t' row h =
    elim (Option-cases
      (first (filter (λ r. r.id === c && r.movie_provider_id === p) t.screenings))) [
        | inl missing ↦ absurd (ground arith)
        | inr (r, found) ↦ ground arith
      ]

module _ (e : Engine) where
  pub insert_reservation-ok :
      (reservation : Reservation) (t t' : Tables)
      → insert_reservation e reservation t ≡ (ok tt, t')
      → (screening : ScreeningRow) × (at : Timestamp) × (e.timestamptz reservation.confirmed_at
          ≡ ok at)
        × (takes_taken t.reservation_seats
              (map (seat_row reservation screening.auditorium_id) reservation.seat_ids)
            ≡ false)
        × (t' ≡ booked at screening reservation t)
  unfolding insert_reservation
  insert_reservation-ok reservation t t' h =
      let seats = λ (screening : ScreeningRow).
        map (seat_row reservation screening.auditorium_id) reservation.seat_ids in
      let last = λ (screening : ScreeningRow) (at : Timestamp).
        insert_reservation_row e (reservation_row at reservation)
        >> insert_reservation_seats e (seats screening) in
      let (screening, t₁, e₁, h₁) =
        >>=-ok (require_screening_row reservation.movie_provider_id reservation.screening_id)
          (λ screening. lift (e.timestamptz reservation.confirmed_at) >>= last screening) tt t t'
          h in
      let (at, t₂, e₂, h₂) =
        >>=-ok (lift (e.timestamptz reservation.confirmed_at)) (last screening) tt t₁ t' h₁ in
      let (u, t₃, e₃, h₃) =
        >>=-ok (insert_reservation_row e (reservation_row at reservation))
          (λ u. insert_reservation_seats e (seats screening)) tt t₂ t' h₂ in
      let same₁ =
        require_screening_row-state reservation.movie_provider_id reservation.screening_id t t₁
          screening e₁ in
      let same₃ = insert_reservation_row-ok e (reservation_row at reservation) t₂ t₃ e₃ in
      let (free, same₄) = insert_reservation_seats-ok e (seats screening) t₃ t' h₃ in
      (screening, at, ground arith, ground arith, ground arith)

  module _ (item : ClaimedReservationRequest) (reservation : Reservation)
      (attempt : ConfirmedAttempt) where
    -- A reservation has been confirmed: none of its seats was taken at its screening, it has been
    -- stored with all of them, and the request has been settled.
    pub record Confirmed (q : ReservationRequest) (t t' : Tables) : Type 0 where
      pub row : ReservationRequestRow
      pub owned : Owns item t row
      pub screening : ScreeningRow
      pub at : Timestamp
      pub confirmed_at : e.timestamptz reservation.confirmed_at ≡ ok at
      pub free :
          takes_taken t.reservation_seats
            (map (seat_row reservation screening.auditorium_id) reservation.seat_ids)
          ≡ false
      pub settled :
          Settled e item ReservationRequestStatus.confirmed false
            (ProcessingAttempt.confirmed attempt)
            q
            (booked at screening reservation t)
            t'

    pub confirm_body-ok :
        (q : ReservationRequest) (t t' : Tables)
        → confirm_body e item reservation attempt t ≡ (ok q, t')
        → Confirmed q t t'
    unfolding confirm_body mark_confirmed
    confirm_body-ok q t t' h =
        let (row, t₁, e₁, h₁) =
          >>=-ok (require_claimed item)
            (λ row. insert_reservation e reservation >> mark_confirmed e item attempt) q t t' h in
        let (owned, same₁) = require_claimed-Owns item t row t₁ e₁ in
        let (u, t₂, e₂, h₂) =
          >>=-ok (insert_reservation e reservation) (λ u. mark_confirmed e item attempt) q t₁ t'
            h₁ in
        let (screening, at, ea, free, same₂) = insert_reservation-ok reservation t₁ t₂ e₂ in
        record {
          row = row;
          owned = owned;
          screening = screening;
          at = at;
          confirmed_at = ea;
          free = ground arith;
          settled =
              write-Settled e item ReservationRequestStatus.confirmed false
                (ProcessingAttempt.confirmed attempt) q (booked at screening reservation t) t' row
                (record {
                  found = owned.found;
                  held = owned.held;
                  same_sequence = owned.same_sequence;
                })
                (ground arith);
        }
