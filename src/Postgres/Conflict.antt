-- ===== src/Postgres/Conflict.antt =====
-- `findConflictingConfirmedReservation` of postgres-reservation-store.ts, and how
-- `confirmClaimedReservationRequest` ends.
use movie_reservation_servic.Prelude.{
  ◌≡◌, refl, sym, subst, inl, inr, true, false, some, arith, List, Has, JsString, text, ◌===◌, ◌&&◌,
  includes, ===_iff, Result, ok, err, Exec, Bool-cases, Option-cases, Result-cases, filter,
}
use movie_reservation_servic.Errors.{Error}
use movie_reservation_servic.Dates.{Dates}
use movie_reservation_servic.Domain.Ids.{create_uuid_id}
use movie_reservation_servic.Domain.Request.{ReservationRequestStatus, ReservationRequest}
use movie_reservation_servic.Domain.Reservation.{Reservation, create_reservation}
use movie_reservation_servic.Work.{
  ClaimedReservationRequest, RejectedAttempt, ConfirmedAttempt, ProcessingAttempt, ConfirmResult,
}
use movie_reservation_servic.Postgres.Rows.{ReservationRow, ReservationSeatRow}
use movie_reservation_servic.Postgres.Mappers.{to_reservation}
use movie_reservation_servic.Postgres.Tables.{Tables, Engine, first, order_by}
use movie_reservation_servic.Postgres.State.{settle, reject_claimed, find_reservation_seat_ids}
use movie_reservation_servic.Postgres.Booking.{
  conflicting_seats, find_conflicting, is_unique_violation, handle_confirm_error, confirm_body,
  confirm_claimed, conflict_attempt,
}
use movie_reservation_servic.Postgres.Order.{Has-filter, first-Has, Has-order_by}
use movie_reservation_servic.Postgres.Atomic.{
  Settled, transaction-ok, transaction-err, settle-Settled,
}
use movie_reservation_servic.Postgres.Confirm.{Confirmed, confirm_body-ok}

to_reservation-id :
    (d : Dates) (row : ReservationRow) (seat_ids : List JsString) (r : Reservation)
    → to_reservation d row seat_ids ≡ ok r
    → create_uuid_id row.id ≡ ok r.id
unfolding to_reservation create_reservation
to_reservation-id d row seat_ids r h = ground arith

-- A stored reservation that holds one of the seats at the screening
pub record Conflicts (screening_id : JsString) (seat_ids : List JsString) (t : Tables)
    (c : Reservation) : Type 0 where
  pub seat : ReservationSeatRow
  pub row : ReservationRow
  pub stored : Has seat t.reservation_seats
  pub same_screening : seat.screening_id ≡ screening_id
  pub wanted : includes seat_ids seat.seat_id ≡ true
  pub reserved : Has row t.reservations
  pub of_seat : row.id ≡ seat.reservation_id
  pub answered : create_uuid_id row.id ≡ ok c.id

module _ (e : Engine) (d : Dates) where
  pub find_conflicting-state :
      (screening_id : JsString) (seat_ids : List JsString) (t : Tables)
      → (find_conflicting e d screening_id seat_ids t).1 ≡ t
  unfolding find_conflicting find_reservation_seat_ids
  find_conflicting-state screening_id seat_ids t =
      elim (Option-cases (
        first (
          order_by (λ a b. e.collates a.reservation_id b.reservation_id)
            (conflicting_seats screening_id seat_ids t)))) [
              | inl free ↦ ground arith
              | inr (s, e_s) ↦
                  elim (Option-cases
                    (first (filter (λ r. r.id === s.reservation_id) t.reservations))) [
                      | inl missing ↦ ground arith
                      | inr (row, e_row) ↦
                          elim (Result-cases (find_reservation_seat_ids e row.id t).0) [
                            | inl (ids, e_ids) ↦ ground arith
                            | inr (x, bad) ↦ ground arith
                          ]
                    ]
            ]

  pub find_conflicting-Conflicts :
      (screening_id : JsString) (seat_ids : List JsString) (t t' : Tables) (c : Reservation)
      → find_conflicting e d screening_id seat_ids t ≡ (ok (some c), t')
      → Conflicts screening_id seat_ids t c
  unfolding find_conflicting find_reservation_seat_ids conflicting_seats
  find_conflicting-Conflicts screening_id seat_ids t t' c h =
      let wanted = λ (r : ReservationSeatRow).
        r.screening_id === screening_id && includes seat_ids r.seat_id in
      let earlier = λ (a b : ReservationSeatRow). e.collates a.reservation_id b.reservation_id in
      elim (Option-cases (first (order_by earlier (conflicting_seats screening_id seat_ids t)))) [
        | inl free ↦ absurd (ground arith)
        | inr (s, e_s) ↦
            let (stored, is_wanted) = (Has-filter wanted t.reservation_seats s).0 (
              (Has-order_by earlier (conflicting_seats screening_id seat_ids t) s).0
                (first-Has (order_by earlier (conflicting_seats screening_id seat_ids t)) s e_s)) in
            elim (Option-cases (first (filter (λ r. r.id === s.reservation_id) t.reservations))) [
              | inl missing ↦ absurd (ground arith)
              | inr (row, e_row) ↦ elim (Result-cases (find_reservation_seat_ids e row.id t).0) [
                | inr (x, bad) ↦ absurd (ground arith)
                | inl (ids, e_ids) ↦
                    let mine = λ (r : ReservationRow). r.id === s.reservation_id in
                    let (reserved, is_mine) =
                      (Has-filter mine t.reservations row).0
                        (first-Has (filter mine t.reservations) row e_row) in
                    record {
                      seat = s;
                      row = row;
                      stored = stored;
                      same_screening = ground (arith, ===_iff s.screening_id screening_id);
                      wanted = ground arith;
                      reserved = reserved;
                      of_seat = (===_iff row.id s.reservation_id).0 is_mine;
                      answered = elim (Result-cases (to_reservation d row ids)) [
                        | inl (c', e_c) ↦ ground (arith, to_reservation-id d row ids c')
                        | inr (x, bad) ↦ absurd (ground arith)
                      ];
                    }
              ]
            ]
      ]

  module _ (item : ClaimedReservationRequest) (reservation : Reservation)
      (attempt : ConfirmedAttempt) where
    -- The claim has been settled as rejected, for a reservation that conflicts.
    pub record Rejected (q : ReservationRequest) (a : RejectedAttempt) (t t' : Tables)
        : Type 0 where
      pub conflict : Reservation
      pub conflicts : Conflicts reservation.screening_id reservation.seat_ids t conflict
      pub recorded : a ≡ conflict_attempt item attempt conflict
      pub settled :
          Settled e item ReservationRequestStatus.rejected false
            (ProcessingAttempt.rejected a)
            q
            t
            t'

    -- What the result of a confirmation tells of the tables before it and after it.
    abbrev pub Ends : Result ConfirmResult → Tables → Tables → Type 0
    Ends (ok (ConfirmResult.confirmed q)) t t' = Confirmed e item reservation attempt q t t'
    Ends (ok (ConfirmResult.rejected q a)) t t' = Rejected q a t t'
    Ends (err x) t t' = t' ≡ t

    by_equation :
        (m : Exec Tables ConfirmResult) (t : Tables) (r : Result ConfirmResult) (t' : Tables)
        → m t ≡ (r, t')
        → Ends r t t'
        → Ends (m t).0 t (m t).1
    by_equation m t r t' same h = subst (λ p. Ends p.0 t p.1) (sym same) h

    handle_confirm_error-Ends :
        (x : Error) (t : Tables)
        → Ends
            (handle_confirm_error e d item reservation attempt x t).0
            t
            (handle_confirm_error e d item reservation attempt x t).1
    unfolding handle_confirm_error reject_claimed
    handle_confirm_error-Ends x t =
        let end = by_equation (handle_confirm_error e d item reservation attempt x) t in
        let find = find_conflicting e d reservation.screening_id reservation.seat_ids in
        let same = find_conflicting-state reservation.screening_id reservation.seat_ids t in
        elim (Bool-cases
          (is_unique_violation x (text "reservation_seats_screening_id_seat_id_unique"))) [
            | inr other ↦ end (err x) t (ground arith) refl
            | inl taken ↦ elim (Result-cases (find t).0) [
              | inr (y, bad) ↦ end (err y) t (ground (arith, same)) refl
              | inl (found, e_found) ↦ elim (Option-cases found) [
                | inl free ↦ end (err x) t (ground (arith, same)) refl
                | inr (c, e_c) ↦
                    let a = conflict_attempt item attempt c in
                    let body =
                      settle e item ReservationRequestStatus.rejected false
                        (ProcessingAttempt.rejected a) in
                    let t' = (e.transaction body t).1 in
                    elim (Result-cases (e.transaction body t).0) [
                      | inr (y, bad) ↦
                          end (err y) t' (ground (arith, same))
                            (transaction-err e body t t' y (ground arith))
                      | inl (q, good) ↦
                          end (ok (ConfirmResult.rejected q a)) t' (ground (arith, same)) (record {
                            conflict = c;
                            conflicts =
                                find_conflicting-Conflicts reservation.screening_id
                                  reservation.seat_ids t t c (ground (arith, same));
                            recorded = refl;
                            settled =
                                settle-Settled e item ReservationRequestStatus.rejected false
                                  (ProcessingAttempt.rejected a) q t t'
                                  (transaction-ok e body t t' q (ground arith));
                          })
                    ]
              ]
            ]
          ]

    -- A confirmation ends in one of three ways, and the tables tell which. Confirmed: the worker
    -- owned the claim, no seat of the reservation was taken at its screening, and the reservation,
    -- its seats, the new status and the attempt have been written together. Rejected: a stored
    -- reservation holds one of the seats at the screening, and the claim has been settled with an
    -- attempt that names it. An error: nothing has been written.
    pub confirm_claimed-Ends :
        (t : Tables)
        → Ends
            (confirm_claimed e d item reservation attempt t).0
            t
            (confirm_claimed e d item reservation attempt t).1
    unfolding confirm_claimed
    confirm_claimed-Ends t =
        let end = by_equation (confirm_claimed e d item reservation attempt) t in
        let body = confirm_body e item reservation attempt in
        let t' = (e.transaction body t).1 in
        elim (Result-cases (e.transaction body t).0) [
          | inl (q, good) ↦ end (ok (ConfirmResult.confirmed q)) t' (ground arith) (
              confirm_body-ok e item reservation attempt q t t'
                (transaction-ok e body t t' q (ground arith)))
          | inr (x, bad) ↦
              let same = transaction-err e body t t' x (ground arith) in
              end (handle_confirm_error e d item reservation attempt x t).0
                (handle_confirm_error e d item reservation attempt x t).1 (ground (arith, same))
                (handle_confirm_error-Ends x t)
        ]
