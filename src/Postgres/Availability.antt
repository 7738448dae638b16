-- ===== src/Postgres/Availability.antt =====
-- src/infrastructure/repositories/postgres/postgres-screening-availability.reader.ts
use movie_reservation_servic.Prelude.{
  ◌&&◌, Option, none, some, List, [], ◌∷◌, ◌++◌, map, JsString, ◌===◌, Result, ok, filter, Bool,
  true, false,
}
use movie_reservation_servic.Prelude.Results.{◌>>=◌, return}
use movie_reservation_servic.Domain.Ids.{create_uuid_id}
use movie_reservation_servic.Memory.Reads.{SeatAvailability, ScreeningAvailability}
use movie_reservation_servic.Postgres.Rows.{ScreeningRow, SeatRow, ReservationSeatRow}
use movie_reservation_servic.Postgres.Tables.{Tables}

-- A row of the query
pub record AvailabilityRow : Type 0 where
  pub seat_id : Option JsString
  pub reserved_seat_id : Option JsString

-- What a left join puts beside a row: each of its matches, or a null
abbrev pub left_join : {A : Type 0} → List A → List (Option A)
left_join [] = none ∷ []
left_join (x ∷ xs) = some x ∷ map some xs

unfoldable pub flat_map : {A B : Type 0} → (A → List B) → List A → List B
flat_map f [] = []
flat_map f (x ∷ xs) = f x ++ flat_map f xs

-- The condition of `joinReservations`
abbrev pub reserves : ScreeningRow → SeatRow → ReservationSeatRow → Bool
reserves screening seat r =
    r.movie_provider_id === screening.movie_provider_id
    && r.screening_id === screening.id
    && r.seat_id === seat.id

abbrev pub to_row : Option JsString → Option ReservationSeatRow → AvailabilityRow
to_row seat_id none = record { seat_id = seat_id; reserved_seat_id = none }
to_row seat_id (some r) = record { seat_id = seat_id; reserved_seat_id = some r.seat_id }

-- The rows for one row of the first join; a null meets no reservation.
abbrev pub rows_of : Tables → ScreeningRow → Option SeatRow → List AvailabilityRow
rows_of t screening none = to_row none none ∷ []
rows_of t screening (some seat) =
    map (to_row (some seat.id)) (left_join (filter (reserves screening seat) t.reservation_seats))

-- The condition of `joinSeats`
abbrev pub stands_in : ScreeningRow → SeatRow → Bool
stands_in screening seat =
    seat.movie_provider_id === screening.movie_provider_id
    && seat.auditorium_id === screening.auditorium_id

-- The query
unfoldable pub availability_rows : JsString → JsString → Tables → List AvailabilityRow
unfolding filter flat_map
availability_rows movie_provider_id screening_id t =
    flat_map (λ c. flat_map (rows_of t c) (left_join (filter (stands_in c) t.seats)))
      (filter (λ c. c.movie_provider_id === movie_provider_id && c.id === screening_id)
        t.screenings)

abbrev pub is_null : Option JsString → Bool
is_null none = true
is_null (some s) = false

abbrev seat_of : AvailabilityRow → Option JsString → Result (List SeatAvailability)
seat_of row none = ok []
seat_of row (some seat_id) = do
  id ← create_uuid_id seat_id
  return (record { seat_id = id; available = is_null row.reserved_seat_id } ∷ [])

-- The `flatMap` over the rows
unfoldable pub seats_of : List AvailabilityRow → Result (List SeatAvailability)
seats_of [] = ok []
seats_of (row ∷ rows) = do
  seats ← seat_of row row.seat_id
  rest ← seats_of rows
  return (seats ++ rest)

abbrev pub read_rows : JsString → List AvailabilityRow → Result (Option ScreeningAvailability)
read_rows screening_id [] = ok none
read_rows screening_id (row ∷ rows) = do
  seats ← seats_of (row ∷ rows)
  return (some (record { screening_id = screening_id; seats = seats }))

-- `read`
unfoldable pub read : JsString → JsString → Tables → Result (Option ScreeningAvailability)
unfolding availability_rows seats_of
read movie_provider_id screening_id t =
    read_rows screening_id (availability_rows movie_provider_id screening_id t)
