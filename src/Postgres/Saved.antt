-- ===== src/Postgres/Saved.antt =====
-- `findReservationRequestById` of postgres-movie-reservation.repository.ts after
-- `saveReservationRequest`.
use movie_reservation_servic.Prelude.{
  ◌≡◌, refl, ap, ◌∙◌, subst, inl, inr, false, Option, some, arith, List, [], ◌∷◌, Has, Bool,
  JsString, ◌===◌, ===_refl, Result, ok, filter, map,
}
use movie_reservation_servic.Prelude.Results.{traverse}
use movie_reservation_servic.Domain.Ids.{create_uuid_id, create_non_empty_id}
use movie_reservation_servic.Domain.Request.{ReservationRequest}
use movie_reservation_servic.Work.{ObservabilityContext}
use movie_reservation_servic.Postgres.Rows.{RequestSeatRow}
use movie_reservation_servic.Postgres.Mappers.{to_reservation_request}
use movie_reservation_servic.Postgres.Tables.{Tables, Engine, any, has_request_id, order_by}
use movie_reservation_servic.Postgres.State.{find_request_seat_ids}
use movie_reservation_servic.Postgres.Requests.{
  request_row, request_seat_row, save_request, find_request_by_id,
}
use movie_reservation_servic.Postgres.Order.{Has-order_by}
use movie_reservation_servic.Postgres.Outcomes.{parse_status-status_text}
use movie_reservation_servic.Postgres.Attempts.{filter-append}
use movie_reservation_servic.Postgres.Save.{Saved, save_request-Ends, Ends}

any-filter : {A : Type 0} (p : A → Bool) (xs : List A) → any p xs ≡ false → filter p xs ≡ []
unfolding filter
any-filter p [] h = refl
any-filter p (x ∷ xs) h = ground (arith, any-filter p xs)

traverse-fixed :
    {A : Type 0} (f : A → Result A) (xs : List A)
    → ((a : A) → Has a xs → f a ≡ ok a)
    → traverse f xs ≡ ok xs
unfolding traverse
traverse-fixed f [] h = refl
traverse-fixed f (x ∷ xs) h = rw (h x (inl refl), traverse-fixed f xs (λ a m. h a (inr m))) refl

-- The ids of a request are in the form that the guards of ids return.
pub record IsGuarded (r : ReservationRequest) : Type 0 where
  pub id : create_uuid_id r.id ≡ ok r.id
  pub movie_provider_id : create_uuid_id r.movie_provider_id ≡ ok r.movie_provider_id
  pub screening_id : create_uuid_id r.screening_id ≡ ok r.screening_id
  pub requested_by_user_id : create_non_empty_id r.requested_by_user_id ≡ ok r.requested_by_user_id
  pub seat_ids : (id : JsString) → Has id r.seat_ids → create_uuid_id id ≡ ok id

module _ (e : Engine) (r : ReservationRequest) (context : Option ObservabilityContext)
    (t t' : Tables) where
  abbrev of_request : RequestSeatRow → Bool
  of_request s = s.reservation_request_id === r.id

  own_seats :
      (auditorium_id : JsString) (ids : List JsString)
      → map (λ s. s.seat_id) (filter of_request (map (request_seat_row r auditorium_id) ids)) ≡ ids
  unfolding filter
  own_seats auditorium_id [] = refl
  own_seats auditorium_id (id ∷ ids) =
      rw (===_refl r.id) (ap (λ xs. id ∷ xs) (own_seats auditorium_id ids))

  Saved-rows :
      Saved e r context t t'
      → filter (has_request_id r.id) t'.requests ≡ request_row e t r context ∷ []
  unfolding request_row filter
  Saved-rows s =
      ap (λ x. filter (has_request_id r.id) x.requests) s.after
      ∙ filter-append (has_request_id r.id) t.requests (request_row e t r context ∷ [])
      ∙ rw (any-filter (has_request_id r.id) t.requests s.is_new, ===_refl r.id) refl

  Saved-seats :
      filter of_request t.request_seats ≡ []
      → Saved e r context t t'
      → map (λ s. s.seat_id) (filter of_request t'.request_seats) ≡ r.seat_ids
  Saved-seats own s =
      let rows = map (request_seat_row r s.screening.auditorium_id) r.seat_ids in
      ap (λ x. map (λ s. s.seat_id) (filter of_request x.request_seats)) s.after
      ∙ ap (map (λ s. s.seat_id)) (filter-append of_request t.request_seats rows)
      ∙ rw own (own_seats s.screening.auditorium_id r.seat_ids)

  to_reservation_request-request_row :
      IsGuarded r
      → (seat_ids : List JsString)
      → to_reservation_request (request_row e t r context) seat_ids
        ≡ ok (record r { seat_ids = seat_ids })
  unfolding to_reservation_request request_row
  to_reservation_request-request_row g seat_ids =
      rw
        (
          g.id,
          g.movie_provider_id,
          g.screening_id,
          g.requested_by_user_id,
          parse_status-status_text r.status,
        )
        refl

  -- A request that has been saved is found by its id as it was saved, its seats in the order of
  -- the database. Its ids are guarded, and no seat row of another request had its id.
  pub find_request_by_id-save_request :
      IsGuarded r
      → filter of_request t.request_seats ≡ []
      → save_request e r context t ≡ (ok tt, t')
      → find_request_by_id e r.id t'
        ≡ (ok (some (record r { seat_ids = order_by e.collates r.seat_ids })), t')
  unfolding find_request_by_id find_request_seat_ids
  find_request_by_id-save_request g own h =
      let s : Saved e r context t t' =
        subst (λ p. Ends e r context t p.0 p.1) h (save_request-Ends e r context t) in
      let row = request_row e t r context in
      let rows : filter (has_request_id r.id) t'.requests ≡ row ∷ [] = Saved-rows s in
      let seats : map (λ s. s.seat_id) (filter of_request t'.request_seats) ≡ r.seat_ids =
        Saved-seats own s in
      let ids : traverse create_uuid_id (order_by e.collates r.seat_ids)
          ≡ ok (order_by e.collates r.seat_ids) =
        traverse-fixed create_uuid_id (order_by e.collates r.seat_ids)
          (λ a m. g.seat_ids a ((Has-order_by e.collates r.seat_ids a).0 m)) in
      rw (rows, seats, ids, to_reservation_request-request_row g (order_by e.collates r.seat_ids))
        refl
