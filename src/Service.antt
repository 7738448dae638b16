-- ===== src/Service.antt =====
-- src/application/movie-reservations/movie-reservations.service.ts and
-- screening-availability.service.ts, on the in-memory repository that they are composed with.
pub mod Laws
pub mod Submit
use movie_reservation_servic.Prelude.{
  Bool, not, ◌&&◌, Option, none, some, List, [], ◌∷◌, JsString, Result, ok, err, Exec, pure, throw,
  lift, gets, ◌>>=◌, ◌>>◌, includes, if◌then◌else◌,
}
use movie_reservation_servic.Prelude.JsMap.{JsMap}
use movie_reservation_servic.Errors.{screening_not_found, seat_not_available}
use movie_reservation_servic.Domain.Catalog.{Movie, Screening, Seat}
use movie_reservation_servic.Domain.Request.{
  ReservationRequest, CreateReservationRequestInput, create_reservation_request,
}
use movie_reservation_servic.Domain.Reservation.{Reservation}
use movie_reservation_servic.Work.{ObservabilityContext}
use movie_reservation_servic.Access.{
  ActorContext, can_read_reservation_request, can_read_reservation,
}
use movie_reservation_servic.Memory.Store.{Store, save_request}
use movie_reservation_servic.Memory.Reads.{
  find_movies_by_provider_id, find_movie_by_id, find_screenings_by_provider_id,
  find_screening_for_provider, find_seats_by_screening_id, find_seats_by_screening_ids,
  find_seats_by_ids_for_screening, find_reservation_request_by_id, find_reservation_by_id,
  find_reservation_by_reservation_request_id, ScreeningAvailability, read_availability,
}

pub record RequestReservationInput : Type 0 where
  pub screening_id : JsString
  pub seat_ids : List JsString

-- What the collaborators answer to one call: the id generator, the context provider, and the
-- observability port, which may throw.
pub record ServicePorts : Type 0 where
  pub generate_reservation_request_id : JsString
  pub current_context : Option ObservabilityContext
  pub record_created : JsString → Result (Unit {0})

unfoldable pub list_movies : ActorContext → Store → List Movie
list_movies actor s = find_movies_by_provider_id actor.movie_provider_id s

unfoldable pub get_movie : ActorContext → JsString → Store → Option Movie
get_movie actor movie_id s = find_movie_by_id actor.movie_provider_id movie_id s

unfoldable pub list_screenings : ActorContext → Option JsString → Store → List Screening
list_screenings actor movie_id s = find_screenings_by_provider_id actor.movie_provider_id movie_id s

unfoldable pub list_seats_for_screening : ActorContext → JsString → Store → List Seat
list_seats_for_screening actor screening_id s =
    find_seats_by_screening_id actor.movie_provider_id screening_id s

unfoldable pub list_seats_for_screenings : ActorContext → List JsString → Store → JsMap (List Seat)
list_seats_for_screenings actor ids s = find_seats_by_screening_ids actor.movie_provider_id ids s

-- The loop of `assertSeatsBelongToScreening`.
unfoldable pub assert_available : JsString → List JsString → List JsString → Result (Unit {0})
assert_available screening_id available [] = ok tt
assert_available screening_id available (x ∷ xs) =
    let rest = assert_available screening_id available xs in
    if not (includes available x) then err (seat_not_available x screening_id) else rest

-- `seats.map((seat) => seat.id)`
abbrev pub ids_of : List Seat → List JsString
ids_of [] = []
ids_of (x ∷ xs) = x.id ∷ ids_of xs

-- `assertSeatsBelongToScreening`
unfoldable pub assert_seats_belong_to_screening :
    ActorContext → RequestReservationInput → Exec Store (Unit {0})
unfolding assert_available
assert_seats_belong_to_screening actor input = do
  seats ←
      gets
        (find_seats_by_ids_for_screening actor.movie_provider_id input.screening_id input.seat_ids)
  lift (assert_available input.screening_id (ids_of seats) input.seat_ids)

abbrev pub request_input :
    ServicePorts → ActorContext → RequestReservationInput → CreateReservationRequestInput
request_input ports actor input = record {
  id = ports.generate_reservation_request_id;
  movie_provider_id = actor.movie_provider_id;
  screening_id = input.screening_id;
  seat_ids = input.seat_ids;
  requested_by_user_id = actor.user_id;
}

abbrev found_screening : JsString → Option Screening → Exec Store Screening
found_screening id none = throw (screening_not_found id)
found_screening id (some c) = pure c

-- `requestReservation`
unfoldable pub request_reservation :
    ServicePorts → ActorContext → RequestReservationInput → Exec Store ReservationRequest
unfolding assert_seats_belong_to_screening
request_reservation ports actor input = do
  screening ← gets (find_screening_for_provider actor.movie_provider_id input.screening_id)
  c ← found_screening input.screening_id screening
  assert_seats_belong_to_screening actor input
  r ← lift (create_reservation_request (request_input ports actor input))
  save_request r ports.current_context
  lift (ports.record_created r.id)
  pure r

abbrev visible : {A : Type 0} → (A → Bool) → Option A → Option A
visible may none = none
visible may (some a) = if not (may a) then none else some a

unfoldable pub get_reservation_request : ActorContext → JsString → Store → Option ReservationRequest
unfolding find_reservation_request_by_id
get_reservation_request actor id s =
    visible (can_read_reservation_request actor) (find_reservation_request_by_id id s)

unfoldable pub get_reservation : ActorContext → JsString → Store → Option Reservation
unfolding find_reservation_by_id
get_reservation actor id s = visible (can_read_reservation actor) (find_reservation_by_id id s)

unfoldable pub get_reservation_by_reservation_request_id :
    ActorContext → JsString → Store → Option Reservation
unfolding find_reservation_by_reservation_request_id
get_reservation_by_reservation_request_id actor id s =
    visible (can_read_reservation actor) (find_reservation_by_reservation_request_id id s)

-- `ScreeningAvailabilityService.read`
unfoldable pub read_screening_availability :
    ActorContext → JsString → Store → Option ScreeningAvailability
unfolding read_availability
read_screening_availability actor screening_id s =
    read_availability actor.movie_provider_id screening_id s
