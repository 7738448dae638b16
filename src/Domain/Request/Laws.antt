-- ===== src/Domain/Request/Laws.antt =====
-- When requests and reservations are accepted, and which moves of a request's status are.
use movie_reservation_servic.Prelude.{◌≡◌, ◌≢◌, ◌↔◌, List, [], ◌∷◌, JsString, ok, arith, length}
use movie_reservation_servic.Domain.Seats.{IsDistinct, length-set_of_iff}
use movie_reservation_servic.Domain.Request.{
  requested, processing, confirmed, rejected, failed, ReservationRequest,
  CreateReservationRequestInput, create_reservation_request, start_processing, confirm_request,
  reject_request, fail_request,
}
use movie_reservation_servic.Domain.Reservation.{Reservation, create_reservation}

length-eq-zero : (xs : List JsString) → (length xs ≡ 0) ↔ (xs ≡ [])
length-eq-zero [] = ground arith
length-eq-zero (x ∷ xs) = ground arith

-- The request that an accepted input becomes.
abbrev pub new_request : CreateReservationRequestInput → ReservationRequest
new_request input = record {
  id = input.id;
  movie_provider_id = input.movie_provider_id;
  screening_id = input.screening_id;
  seat_ids = input.seat_ids;
  requested_by_user_id = input.requested_by_user_id;
  status = requested;
}

-- A request is created exactly when it names a seat and no seat twice, and then it is the input
-- with the status REQUESTED.
pub create_reservation_request_iff :
    (input : CreateReservationRequestInput) (r : ReservationRequest)
    → (create_reservation_request input ≡ ok r)
      ↔ ((input.seat_ids ≢ []) × IsDistinct input.seat_ids × (r ≡ new_request input))
unfolding create_reservation_request
create_reservation_request_iff input r =
    ground (arith, length-set_of_iff input.seat_ids, length-eq-zero input.seat_ids)

-- A reservation is created exactly when it names a seat and no seat twice, and then it is the
-- input.
pub create_reservation_iff :
    (input reservation : Reservation)
    → (create_reservation input ≡ ok reservation)
      ↔ ((input.seat_ids ≢ []) × IsDistinct input.seat_ids × (reservation ≡ input))
unfolding create_reservation
create_reservation_iff input reservation =
    ground (arith, length-set_of_iff input.seat_ids, length-eq-zero input.seat_ids)

-- Each of the four transitions succeeds exactly from its one status, REQUESTED for the start of
-- processing and PROCESSING for the others, and changes the status alone.
pub transitions_iff :
    (r r' : ReservationRequest)
    → ((start_processing r ≡ ok r')
        ↔ ((r.status ≡ requested) × (r' ≡ record r { status = processing })))
      × ((confirm_request r ≡ ok r')
          ↔ ((r.status ≡ processing) × (r' ≡ record r { status = confirmed })))
      × ((reject_request r ≡ ok r')
          ↔ ((r.status ≡ processing) × (r' ≡ record r { status = rejected })))
      × ((fail_request r ≡ ok r') ↔ ((r.status ≡ processing) × (r' ≡ record r { status = failed })))
unfolding start_processing confirm_request reject_request fail_request
transitions_iff r r' = ground arith
