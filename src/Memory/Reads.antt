-- ===== src/Memory/Reads.antt =====
-- src/infrastructure/repositories/in-memory/in-memory-movie-reservation.repository.ts and
-- in-memory-screening-availability.reader.ts: the reads of the shared store, as functions of it.
use movie_reservation_servic.Prelude.{
  Bool, true, not, ◌&&◌, Option, none, some, List, [], ◌∷◌, ◌++◌, map, filter, JsString, ◌===◌,
  includes, if◌then◌else◌,
}
use movie_reservation_servic.Prelude.JsMap.{JsMap, get, set, values}
use movie_reservation_servic.Domain.Catalog.{MovieProvider, Movie, Screening, Seat}
use movie_reservation_servic.Domain.Request.{ReservationRequest}
use movie_reservation_servic.Domain.Reservation.{Reservation}
use movie_reservation_servic.Memory.Store.{Store}
use movie_reservation_servic.Work.{ProcessingAttempt}
use movie_reservation_servic.Memory.Store.{or_empty}

-- `x.movieProviderId !== movieProviderId` makes a found record `null`.
abbrev only_if : {A : Type 0} → (A → Bool) → Option A → Option A
only_if p none = none
only_if p (some a) = if p a then some a else none

unfoldable pub find_movie_provider_by_id : JsString → Store → Option MovieProvider
find_movie_provider_by_id id s = get s.movie_providers id

unfoldable pub find_movies_by_provider_id : JsString → Store → List Movie
unfolding filter
find_movies_by_provider_id provider_id s =
    filter (λ m. m.movie_provider_id === provider_id) (values s.movies)

unfoldable pub find_movie_by_id : JsString → JsString → Store → Option Movie
find_movie_by_id provider_id movie_id s =
    only_if (λ m. m.movie_provider_id === provider_id) (get s.movies movie_id)

-- `input.movieId === undefined || screening.movieId === input.movieId`
abbrev is_of_movie : Option JsString → JsString → Bool
is_of_movie none id = true
is_of_movie (some movie_id) id = id === movie_id

unfoldable pub find_screenings_by_provider_id : JsString → Option JsString → Store → List Screening
unfolding filter
find_screenings_by_provider_id provider_id movie_id s =
    filter (λ c. c.movie_provider_id === provider_id && is_of_movie movie_id c.movie_id)
      (values s.screenings)

unfoldable pub find_screening_for_provider : JsString → JsString → Store → Option Screening
find_screening_for_provider provider_id screening_id s =
    only_if (λ c. c.movie_provider_id === provider_id) (get s.screenings screening_id)

-- The seats of the screening's auditorium.
abbrev pub seats_of : JsString → Screening → Store → List Seat
seats_of provider_id screening s =
    filter (λ x. x.movie_provider_id === provider_id && x.auditorium_id === screening.auditorium_id)
      (values s.seats)

abbrev or_no_seats : {A B : Type 0} → (A → List B) → Option A → List B
or_no_seats f none = []
or_no_seats f (some a) = f a

unfoldable pub find_seats_by_screening_id : JsString → JsString → Store → List Seat
unfolding find_screening_for_provider
find_seats_by_screening_id provider_id screening_id s =
    or_no_seats (λ c. seats_of provider_id c s)
      (find_screening_for_provider provider_id screening_id s)

-- `new Map(...)` writes the entries in the order of the ids.
unfoldable pub enter_seats :
    JsString → Store → JsMap (List Seat) → List JsString → JsMap (List Seat)
unfolding find_seats_by_screening_id set
enter_seats provider_id s seats [] = seats
enter_seats provider_id s seats (id ∷ rest) =
    enter_seats provider_id s (set seats id (find_seats_by_screening_id provider_id id s)) rest

unfoldable pub find_seats_by_screening_ids : JsString → List JsString → Store → JsMap (List Seat)
unfolding enter_seats
find_seats_by_screening_ids provider_id ids s = enter_seats provider_id s [] ids

unfoldable pub find_seats_by_ids_for_screening :
    JsString → JsString → List JsString → Store → List Seat
unfolding find_screening_for_provider
find_seats_by_ids_for_screening provider_id screening_id seat_ids s =
    or_no_seats
      (λ c.
        filter
          (λ x.
            includes seat_ids x.id
            && x.movie_provider_id === provider_id
            && x.auditorium_id === c.auditorium_id)
          (values s.seats))
      (find_screening_for_provider provider_id screening_id s)

unfoldable pub find_reservation_request_by_id : JsString → Store → Option ReservationRequest
find_reservation_request_by_id id s = get s.requests id

unfoldable pub find_reservation_by_id : JsString → Store → Option Reservation
find_reservation_by_id id s = get s.reservations id

-- The loop of `findReservationByReservationRequestId`.
first_of_request : JsString → List Reservation → Option Reservation
first_of_request id [] = none
first_of_request id (r ∷ rs) =
    if r.reservation_request_id === id then some r else first_of_request id rs

unfoldable pub find_reservation_by_reservation_request_id : JsString → Store → Option Reservation
unfolding first_of_request
find_reservation_by_reservation_request_id id s = first_of_request id (values s.reservations)

-- `findReservationRequestProcessingAttemptsByRequestId` of the work repository
unfoldable pub find_attempts_by_request_id : JsString → Store → List ProcessingAttempt
find_attempts_by_request_id id s = or_empty (get s.processing_attempts id)

pub record SeatAvailability : Type 0 where
  pub seat_id : JsString
  pub available : Bool

pub record ScreeningAvailability : Type 0 where
  pub screening_id : JsString
  pub seats : List SeatAvailability

-- `flatMap((reservation) => reservation.seatIds)`
unfoldable pub seat_ids_of : List Reservation → List JsString
seat_ids_of [] = []
seat_ids_of (r ∷ rs) = r.seat_ids ++ seat_ids_of rs

-- The seats that a confirmed reservation occupies.
unfoldable pub occupied : JsString → JsString → Store → List JsString
unfolding filter seat_ids_of
occupied provider_id screening_id s = seat_ids_of (
    filter (λ r. r.movie_provider_id === provider_id && r.screening_id === screening_id)
      (values s.reservations))

abbrev pub seat_availability : List JsString → Seat → SeatAvailability
seat_availability taken x = record { seat_id = x.id; available = not (includes taken x.id) }

abbrev pub availability_of : JsString → JsString → Store → Screening → ScreeningAvailability
availability_of provider_id screening_id s screening = record {
  screening_id = screening_id;
  seats =
      map (seat_availability (occupied provider_id screening_id s))
        (seats_of provider_id screening s);
}

abbrev or_null : {A B : Type 0} → (A → B) → Option A → Option B
or_null f none = none
or_null f (some a) = some (f a)

-- `InMemoryScreeningAvailabilityReader.read`
unfoldable pub read_availability : JsString → JsString → Store → Option ScreeningAvailability
unfolding find_screening_for_provider occupied filter
read_availability provider_id screening_id s =
    or_null (availability_of provider_id screening_id s)
      (find_screening_for_provider provider_id screening_id s)
