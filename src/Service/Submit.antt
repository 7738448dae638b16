-- ===== src/Service/Submit.antt =====
-- What `requestReservation` submits.
use movie_reservation_servic.Prelude.{
  ◌≤◌, ◌≡◌, ◌≢◌, subst, refl, true, none, some, List, [], ◌∷◌, JsString, ===_iff, Has, All, filter,
  includes, ok, arith, Bool-cases, Option-cases, Result-cases, inl, inr, Bool, ◌&&◌, ◌===◌,
}
use movie_reservation_servic.Prelude.JsMap.{get, values}
use movie_reservation_servic.Domain.Catalog.{Screening, Seat}
use movie_reservation_servic.Domain.Seats.{IsDistinct}
use movie_reservation_servic.Domain.Request.{
  ReservationRequest, create_reservation_request, max_safe_integer,
}
use movie_reservation_servic.Domain.Request.Laws.{new_request, create_reservation_request_iff}
use movie_reservation_servic.Access.{ActorContext}
use movie_reservation_servic.Memory.Store.{Store}
use movie_reservation_servic.Memory.Save.{saved, save_request_new, save_request_known}
use movie_reservation_servic.Memory.Reads.{
  find_screening_for_provider, find_seats_by_ids_for_screening,
}
use movie_reservation_servic.Service.{
  RequestReservationInput, ServicePorts, request_input, request_reservation, assert_available,
  assert_seats_belong_to_screening, ids_of,
}

-- A seat with this id stands in the screening's auditorium, and is its provider's.
pub record IsSeatOf (s : Store) (c : Screening) (provider_id id : JsString) : Type 0 where
  pub seat : Seat
  pub stored : Has seat (values s.seats)
  pub named : seat.id ≡ id
  pub movie_provider_id : seat.movie_provider_id ≡ provider_id
  pub auditorium_id : seat.auditorium_id ≡ c.auditorium_id

includes-filter :
    (p : Seat → Bool) (xs : List Seat) (id : JsString)
    → includes (ids_of (filter p xs)) id ≡ true
    → (x : Seat) × Has x xs × (x.id ≡ id) × (p x ≡ true)
unfolding filter includes
includes-filter p [] id h = cc
includes-filter p (x ∷ xs) id h = elim (Bool-cases (p x)) [
  | inr dropped ↦
      let (y, listed, named, good) = includes-filter p xs id (ground arith) in
      (y, inr listed, named, good)
  | inl kept ↦ elim (Bool-cases (x.id === id)) [
    | inl same ↦ (x, inl refl, (===_iff x.id id).0 same, kept)
    | inr other ↦
        let (y, listed, named, good) = includes-filter p xs id (ground arith) in
        (y, inr listed, named, good)
  ]
]

assert_available-All :
    (screening_id : JsString) (available xs : List JsString)
    → assert_available screening_id available xs ≡ ok tt
    → All (λ x. includes available x ≡ true) xs
unfolding assert_available
assert_available-All screening_id available [] h = tt
assert_available-All screening_id available (x ∷ xs) h =
    (ground arith, assert_available-All screening_id available xs (ground arith))

All-map :
    {P Q : JsString → Type 0} (xs : List JsString)
    → ((x : JsString) → P x → Q x)
    → All P xs
    → All Q xs
All-map [] f h = tt
All-map (x ∷ xs) f (p, ps) = (f x p, All-map xs f ps)

module _ (ports : ServicePorts) (actor : ActorContext) (input : RequestReservationInput)
    (s : Store) where
  -- What a submitted request was checked for, and what was stored.
  pub record IsSubmitted (r : ReservationRequest) (s' : Store) : Type 0 where
    pub screening : Screening
    pub found :
        find_screening_for_provider actor.movie_provider_id input.screening_id s ≡ some screening
    pub seats : All (IsSeatOf s screening actor.movie_provider_id) input.seat_ids
    pub some_seat : input.seat_ids ≢ []
    pub distinct : IsDistinct input.seat_ids
    pub fresh : get s.requests r.id ≡ none
    pub request : r ≡ new_request (request_input ports actor input)
    pub stored : s' ≡ saved s r ports.current_context

  -- The test that `findSeatsByIdsForScreening` filters by.
  abbrev is_asked : Screening → Seat → Bool
  is_asked c x =
      includes input.seat_ids x.id
      && x.movie_provider_id === actor.movie_provider_id
      && x.auditorium_id === c.auditorium_id

  found-seats :
      (c : Screening)
      → find_screening_for_provider actor.movie_provider_id input.screening_id s ≡ some c
      → find_seats_by_ids_for_screening actor.movie_provider_id input.screening_id input.seat_ids s
        ≡ filter (is_asked c) (values s.seats)
  unfolding find_seats_by_ids_for_screening
  found-seats c found = rw found refl

  asked-IsSeatOf :
      (c : Screening) (id : JsString)
      → includes (ids_of (filter (is_asked c) (values s.seats))) id ≡ true
      → IsSeatOf s c actor.movie_provider_id id
  asked-IsSeatOf c id good =
      let (x, listed, named, passed) = includes-filter (is_asked c) (values s.seats) id good in
      record {
        seat = x;
        stored = listed;
        named = named;
        movie_provider_id = ground (arith, ===_iff x.movie_provider_id actor.movie_provider_id);
        auditorium_id = ground (arith, ===_iff x.auditorium_id c.auditorium_id);
      }

  seats-IsSeatOf :
      (c : Screening)
      → find_screening_for_provider actor.movie_provider_id input.screening_id s ≡ some c
      → (assert_seats_belong_to_screening actor input s).0 ≡ ok tt
      → All (IsSeatOf s c actor.movie_provider_id) input.seat_ids
  unfolding assert_seats_belong_to_screening
  seats-IsSeatOf c found h =
      All-map input.seat_ids
        (λ id good.
          asked-IsSeatOf c id
            (subst (λ xs. includes (ids_of xs) id ≡ true) (found-seats c found) good))
        (assert_available-All input.screening_id _ input.seat_ids h)

  -- A request that is returned was checked and stored: its screening is the provider's, its seats
  -- are distinct, at least one, and stand in the screening's auditorium, its id was free, and it is
  -- stored as REQUESTED under the next sequence number.
  pub request_reservation-IsSubmitted :
      (r : ReservationRequest)
      → 1 ≤ s.next_sequence
      → s.next_sequence ≤ max_safe_integer
      → (request_reservation ports actor input s).0 ≡ ok r
      → IsSubmitted r (request_reservation ports actor input s).1
  unfolding request_reservation
  request_reservation-IsSubmitted r low high h =
      elim (Option-cases
        (find_screening_for_provider actor.movie_provider_id input.screening_id s)) [
          | inl missing ↦ absurd (ground arith)
          | inr (c, found) ↦
              elim (Result-cases (assert_seats_belong_to_screening actor input s).0) [
                | inr (e, bad) ↦ absurd (ground arith)
                | inl (u, seats) ↦
                    elim (Result-cases
                      (create_reservation_request (request_input ports actor input))) [
                        | inr (e, bad) ↦ absurd (ground arith)
                        | inl (q, made) ↦ elim (Option-cases (get s.requests q.id)) [
                          | inr (known, at) ↦ absurd (
                              ground (arith, save_request_known q ports.current_context s known at))
                          | inl free ↦ elim (Result-cases (ports.record_created q.id)) [
                            | inr (e, bad) ↦ absurd (
                                ground
                                  (arith, save_request_new q ports.current_context s free low high))
                            | inl (u', told) ↦
                                let (some_seat, distinct, request) =
                                  (create_reservation_request_iff (request_input ports actor input)
                                      q).0
                                    made in
                                let saves =
                                  save_request_new q ports.current_context s free low high in
                                let same : q ≡ r = ground (arith, saves) in
                                subst
                                  (λ x. IsSubmitted x (request_reservation ports actor input s).1)
                                  same
                                  (record {
                                    screening = c;
                                    found = found;
                                    seats = seats-IsSeatOf c found seats;
                                    some_seat = some_seat;
                                    distinct = distinct;
                                    fresh = free;
                                    request = request;
                                    stored = ground (arith, saves);
                                  })
                          ]
                        ]
                      ]
              ]
        ]
