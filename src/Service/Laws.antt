-- ===== src/Service/Laws.antt =====
-- The reads of src/application/movie-reservations/movie-reservations.service.ts, and the occupancy
-- snapshot.
use movie_reservation_servic.Prelude.{
  ◌≡◌, ◌↔◌, subst, refl, true, false, none, some, List, [], ◌∷◌, map, JsString, ===_iff, All,
  filter, includes, arith, Bool-cases, Option-cases, inl, inr, Bool, ◌&&◌, ◌===◌, Option, ok,
}
use movie_reservation_servic.Prelude.JsMap.{JsMap, get, set, values}
use movie_reservation_servic.Domain.Request.{ReservationRequest}
use movie_reservation_servic.Domain.Reservation.{Reservation}
use movie_reservation_servic.Domain.Seats.{includes-append}
use movie_reservation_servic.Domain.Catalog.{Seat}
use movie_reservation_servic.Access.{ActorContext}
use movie_reservation_servic.Access.Laws.{
  MayRead, can_read_reservation_request_iff, can_read_reservation_iff,
}
use movie_reservation_servic.Memory.Store.{Store}
use movie_reservation_servic.Memory.Settle.{first_conflict, overlaps, find_conflict}
use movie_reservation_servic.Memory.Reads.{
  seat_ids_of, occupied, seats_of, availability_of, read_availability, ScreeningAvailability,
  SeatAvailability, seat_availability, find_movies_by_provider_id, find_screenings_by_provider_id,
  find_seats_by_screening_id, find_seats_by_screening_ids, enter_seats, find_screening_for_provider,
}
use movie_reservation_servic.Service.{
  list_movies, list_screenings, list_seats_for_screening, list_seats_for_screenings,
  get_reservation_request, get_reservation,
}

-- What a filter keeps passes its test.
filter-All :
    {A : Type 0} (P : A → Type 0) (p : A → Bool) (xs : List A)
    → ((a : A) → p a ≡ true → P a)
    → All P (filter p xs)
unfolding filter
filter-All P p [] h = tt
filter-All P p (x ∷ xs) h = elim (Bool-cases (p x)) [
  | inl kept ↦ rw kept (h x kept, filter-All P p xs h)
  | inr dropped ↦ rw dropped (filter-All P p xs h)
]

-- A write to a map keeps what holds of all values, when it holds of the new one.
values-set-All :
    {V : Type 0} (P : V → Type 0) (m : JsMap V) (k : JsString) (v : V)
    → All P (values m)
    → P v
    → All P (values (set m k v))
unfolding values set
values-set-All P [] k v all new = (new, tt)
values-set-All P ((j, w) ∷ m) k v all new = elim (Bool-cases (j === k)) [
  | inl same ↦ rw same (new, all.1)
  | inr other ↦ rw other (all.0, values-set-All P m k v all.1 new)
]

abbrev pub AreOf : JsString → List Seat → Type 0
AreOf provider_id seats = All (λ x. x.movie_provider_id ≡ provider_id) seats

seats_of_screening-AreOf :
    (provider_id screening_id : JsString) (s : Store)
    → AreOf provider_id (find_seats_by_screening_id provider_id screening_id s)
unfolding find_seats_by_screening_id
seats_of_screening-AreOf provider_id screening_id s =
    elim (Option-cases (find_screening_for_provider provider_id screening_id s)) [
      | inl missing ↦ rw missing tt
      | inr (c, e) ↦ rw e (
          filter-All _ _ (values s.seats)
            (λ x h. ground (arith, ===_iff x.movie_provider_id provider_id)))
    ]

enter_seats-AreOf :
    (provider_id : JsString) (s : Store) (seats : JsMap (List Seat)) (ids : List JsString)
    → All (AreOf provider_id) (values seats)
    → All (AreOf provider_id) (values (enter_seats provider_id s seats ids))
unfolding enter_seats
enter_seats-AreOf provider_id s seats [] h = h
enter_seats-AreOf provider_id s seats (id ∷ rest) h =
    let found = find_seats_by_screening_id provider_id id s in
    enter_seats-AreOf provider_id s (set seats id found) rest (
      values-set-All (AreOf provider_id) seats id found h
        (seats_of_screening-AreOf provider_id id s))

module _ (actor : ActorContext) (s : Store) where
  -- A read of a request shows it exactly when it is stored and the actor may read it.
  pub get_reservation_request_iff :
      (id : JsString) (r : ReservationRequest)
      → (get_reservation_request actor id s ≡ some r)
        ↔ ((get s.requests id ≡ some r) × MayRead actor r.movie_provider_id r.requested_by_user_id)
  unfolding get_reservation_request
  get_reservation_request_iff id r = elim (Option-cases (get s.requests id)) [
    | inl missing ↦ ground arith
    | inr (q, e) ↦ ground (arith, can_read_reservation_request_iff actor q)
  ]

  -- A read of a reservation shows it exactly when it is stored and the actor may read it.
  pub get_reservation_iff :
      (id : JsString) (r : Reservation)
      → (get_reservation actor id s ≡ some r) ↔ (
          (get s.reservations id ≡ some r)
          × MayRead actor r.movie_provider_id r.reserved_by_user_id)
  unfolding get_reservation
  get_reservation_iff id r = elim (Option-cases (get s.reservations id)) [
    | inl missing ↦ ground arith
    | inr (q, e) ↦ ground (arith, can_read_reservation_iff actor q)
  ]

  -- Every movie, screening and seat that the four listings of the catalog give belongs to the
  -- actor's provider, also in every entry of the listing of seats by screening.
  pub catalog-isolated :
      (movie_id : Option JsString) (screening_id : JsString) (screening_ids : List JsString)
      → All (λ m. m.movie_provider_id ≡ actor.movie_provider_id) (list_movies actor s)
        × All
            (λ c. c.movie_provider_id ≡ actor.movie_provider_id)
            (list_screenings actor movie_id s)
        × All
            (λ x. x.movie_provider_id ≡ actor.movie_provider_id)
            (list_seats_for_screening actor screening_id s)
        × All
            (λ seats. All (λ x. x.movie_provider_id ≡ actor.movie_provider_id) seats)
            (values (list_seats_for_screenings actor screening_ids s))
  unfolding list_movies list_screenings list_seats_for_screening list_seats_for_screenings
      find_movies_by_provider_id find_screenings_by_provider_id find_seats_by_screening_ids values
  catalog-isolated movie_id screening_id screening_ids = (
    filter-All _ _ (values s.movies)
        (λ m h. ground (arith, ===_iff m.movie_provider_id actor.movie_provider_id)),
    filter-All _ _ (values s.screenings)
        (λ c h. ground (arith, ===_iff c.movie_provider_id actor.movie_provider_id)),
    seats_of_screening-AreOf actor.movie_provider_id screening_id s,
    enter_seats-AreOf actor.movie_provider_id s [] screening_ids tt,
  )

overlaps_one : (xs : List JsString) (seat : JsString) → overlaps xs (seat ∷ []) ≡ includes xs seat
unfolding overlaps includes
overlaps_one [] seat = refl
overlaps_one (x ∷ xs) seat = ground (arith, overlaps_one xs seat, ===_iff x seat, ===_iff seat x)

-- The reservations of the screening are the provider's own.
abbrev pub IsOwn : JsString → JsString → List Reservation → Type 0
IsOwn provider_id screening_id rs =
    All (λ r. r.screening_id ≡ screening_id → r.movie_provider_id ≡ provider_id) rs

occupied_lem :
    (provider_id screening_id seat : JsString) (rs : List Reservation)
    → IsOwn provider_id screening_id rs
    → (includes
          (seat_ids_of (
            filter
              (λ r. r.movie_provider_id === provider_id && r.screening_id === screening_id)
              rs))
          seat
        ≡ false)
      ↔ (first_conflict screening_id (seat ∷ []) rs ≡ none)
unfolding filter seat_ids_of first_conflict includes
occupied_lem provider_id screening_id seat [] own = ground arith
occupied_lem provider_id screening_id seat (r ∷ rs) own =
    let rest =
      seat_ids_of
        (filter (λ q. q.movie_provider_id === provider_id && q.screening_id === screening_id) rs) in
    ground (
      arith,
      own.0,
      ===_iff r.screening_id screening_id,
      ===_iff r.movie_provider_id provider_id,
      includes-append r.seat_ids rest seat,
      overlaps_one r.seat_ids seat,
      occupied_lem provider_id screening_id seat rs own.1,
    )

map-All :
    {A B : Type 0} (P : B → Type 0) (f : A → B) (xs : List A)
    → ((a : A) → P (f a))
    → All P (map f xs)
map-All P f [] h = tt
map-All P f (x ∷ xs) h = (h x, map-All P f xs h)

-- Where the stored reservations of a screening are its provider's, the occupancy snapshot shows a
-- seat as available exactly when the search for conflicts finds none for it.
pub read_availability-find_conflict :
    (provider_id screening_id : JsString) (s : Store) (snapshot : ScreeningAvailability)
    → IsOwn provider_id screening_id (values s.reservations)
    → read_availability provider_id screening_id s ≡ some snapshot
    → All
        (λ (x : SeatAvailability).
          (x.available ≡ true) ↔ ((find_conflict screening_id (x.seat_id ∷ []) s).0 ≡ ok none))
        snapshot.seats
unfolding read_availability find_conflict
read_availability-find_conflict provider_id screening_id s snapshot own e =
    elim (Option-cases (find_screening_for_provider provider_id screening_id s)) [
      | inl missing ↦ absurd (ground arith)
      | inr (c, found) ↦
          subst
            (λ (x : ScreeningAvailability).
              All
                (λ (y : SeatAvailability).
                  (y.available ≡ true)
                  ↔ ((find_conflict screening_id (y.seat_id ∷ []) s).0 ≡ ok none))
                x.seats)
            {x = availability_of provider_id screening_id s c} {y = snapshot} (ground arith)
            (map-All
              (λ (y : SeatAvailability).
                (y.available ≡ true)
                ↔ ((find_conflict screening_id (y.seat_id ∷ []) s).0 ≡ ok none))
              (seat_availability (occupied provider_id screening_id s)) (seats_of provider_id c s)
              (λ x.
                ground
                  (arith, occupied_lem provider_id screening_id x.id (values s.reservations) own)))
    ]
