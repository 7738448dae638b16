-- ===== src/Postgres/Save.antt =====
-- `saveReservationRequest` of postgres-movie-reservation.repository.ts, on every branch, and what
-- `findReservationRequestById` reads after it.
use movie_reservation_servic.Prelude.{
  ◌≡◌, refl, subst, inl, inr, true, false, Option, arith, List, [], ◌∷◌, ◌++◌, text, ◌===◌, Result,
  ok, err, gets, ◌>>=◌, ◌>>◌, map, Bool-cases, Result-cases,
}
use movie_reservation_servic.Errors.{request_already_exists, database_error}
use movie_reservation_servic.Domain.Request.{ReservationRequest}
use movie_reservation_servic.Work.{ObservabilityContext}
use movie_reservation_servic.Postgres.Rows.{ReservationRequestRow, RequestSeatRow, ScreeningRow}
use movie_reservation_servic.Postgres.Tables.{
  Tables, Engine, any, has_request_id, insert_request, insert_request_seats,
}
use movie_reservation_servic.Postgres.Booking.{is_unique_violation, require_screening_row}
use movie_reservation_servic.Postgres.Requests.{
  request_row, request_seat_row, save_body, save_request,
}
use movie_reservation_servic.Postgres.Outcomes.{>>=-ok}
use movie_reservation_servic.Postgres.Confirm.{require_screening_row-state}
use movie_reservation_servic.Postgres.Atomic.{transaction-ok, transaction-err}

-- The tables with a request and its seats
abbrev pub saved :
    Engine → ReservationRequest → Option ObservabilityContext → ScreeningRow → Tables → Tables
saved e r context screening t = record t {
  requests = t.requests ++ request_row e t r context ∷ [];
  request_seats = t.request_seats ++ map (request_seat_row r screening.auditorium_id) r.seat_ids;
}

insert_request-ok :
    (e : Engine) (row : ReservationRequestRow) (t t' : Tables)
    → insert_request e row t ≡ (ok tt, t')
    → (any (has_request_id row.id) t.requests ≡ false)
      × (t' ≡ record t { requests = t.requests ++ row ∷ [] })
unfolding insert_request
insert_request-ok e row t t' h =
    elim (Result-cases (e.check_references (record t { requests = t.requests ++ row ∷ [] }))) [
      | inl (u, fine) ↦ ground arith
      | inr (x, wrong) ↦ absurd (ground arith)
    ]

insert_request_seats-ok :
    (e : Engine) (rows : List RequestSeatRow) (t t' : Tables)
    → insert_request_seats e rows t ≡ (ok tt, t')
    → t' ≡ record t { request_seats = t.request_seats ++ rows }
unfolding insert_request_seats
insert_request_seats-ok e rows t t' h =
    elim (Result-cases
      (e.check_references (record t { request_seats = t.request_seats ++ rows }))) [
        | inl (u, fine) ↦ ground arith
        | inr (x, wrong) ↦ absurd (ground arith)
      ]

module _ (e : Engine) (r : ReservationRequest) (context : Option ObservabilityContext)
    (t : Tables) where
  -- The request is new, and has been stored with its seats.
  pub record Saved (t' : Tables) : Type 0 where
    pub screening : ScreeningRow
    pub found : require_screening_row r.movie_provider_id r.screening_id t ≡ (ok screening, t)
    pub is_new : any (has_request_id r.id) t.requests ≡ false
    pub after : t' ≡ saved e r context screening t

  save_body-Saved : (t' : Tables) → save_body e r context t ≡ (ok tt, t') → Saved t'
  unfolding save_body
  save_body-Saved t' h =
      let seats = λ (screening : ScreeningRow).
        insert_request_seats e (map (request_seat_row r screening.auditorium_id) r.seat_ids) in
      let (screening, t₁, e₁, h₁) =
        >>=-ok (require_screening_row r.movie_provider_id r.screening_id)
          (λ screening. gets (λ t. request_row e t r context) >>= λ row.
            insert_request e row >> seats screening)
          tt t t' h in
      let same₁ =
        require_screening_row-state r.movie_provider_id r.screening_id t t₁ screening e₁ in
      let (u, t₂, e₂, h₂) =
        >>=-ok (insert_request e (request_row e t₁ r context)) (λ u. seats screening) tt t₁ t' h₁ in
      let (is_new, same₂) = insert_request-ok e (request_row e t₁ r context) t₁ t₂ e₂ in
      let same₃ =
        insert_request_seats-ok e (map (request_seat_row r screening.auditorium_id) r.seat_ids) t₂
          t' h₂ in
      record {
        screening = screening;
        found = ground (arith, same₁);
        is_new = subst (λ x. any (has_request_id r.id) x.requests ≡ false) same₁ is_new;
        after = ground arith;
      }

  -- What the result of saving tells of the tables afterwards.
  abbrev pub Ends : Result (Unit {0}) → Tables → Type 0
  Ends (ok u) t' = Saved t'
  Ends (err x) t' = t' ≡ t

  -- Saving either stores a new request whole, with the seats that it names, or throws and stores
  -- nothing.
  pub save_request-Ends : Ends (save_request e r context t).0 (save_request e r context t).1
  unfolding save_request is_unique_violation
  save_request-Ends =
      let body = save_body e r context in
      let t' = (e.transaction body t).1 in
      elim (Result-cases (e.transaction body t).0) [
        | inl (u, good) ↦
            subst (λ p. Ends p.0 p.1) {x = (ok u, t')} {y = save_request e r context t}
              (ground arith) (save_body-Saved t' (transaction-ok e body t t' u (ground arith)))
        | inr (x, bad) ↦
            let same = transaction-err e body t t' x (ground arith) in
            elim (Bool-cases (is_unique_violation x (text "reservation_requests_pkey"))) [
              | inl known ↦
                  subst (λ p. Ends p.0 p.1) {x = (err (request_already_exists r.id), t)}
                    {y = save_request e r context t} (ground (arith, same)) refl
              | inr other ↦
                  subst (λ p. Ends p.0 p.1) {x = (err x, t)} {y = save_request e r context t}
                    (ground (arith, same)) refl
            ]
      ]

  -- An id that is stored is refused by name, and nothing is written.
  pub save_request_known :
      (screening : ScreeningRow)
      → require_screening_row r.movie_provider_id r.screening_id t ≡ (ok screening, t)
      → any (has_request_id r.id) t.requests ≡ true
      → save_request e r context t ≡ (err (request_already_exists r.id), t)
  unfolding save_request save_body insert_request is_unique_violation ◌===◌
  save_request_known screening found known =
      let x = database_error (text "23505") (text "reservation_requests_pkey") in
      let thrown : save_body e r context t ≡ (err x, t) = ground (arith, found, known) in
      ground (arith, e.transaction-rollback (save_body e r context) x t t thrown)
