-- ===== src/Postgres/Catalog.antt =====
-- src/infrastructure/repositories/postgres/postgres-movie-reservation.repository.ts, its reads of
-- the catalog.
use movie_reservation_servic.Prelude.{
  Bool, ◌&&◌, Option, none, some, List, [], ◌∷◌, ◌++◌, map, JsString, ◌===◌, includes, Result, ok,
  filter, length, leb, ◌==◌, if◌then◌else◌,
}
use movie_reservation_servic.Prelude.Results.{traverse, ◌>>=◌, return}
use movie_reservation_servic.Prelude.JsMap.{JsMap, get, set}
use movie_reservation_servic.Dates.{Dates}
use movie_reservation_servic.Domain.Ids.{create_uuid_id}
use movie_reservation_servic.Domain.Catalog.{MovieProvider, Movie, Screening, Seat}
use movie_reservation_servic.Domain.Seats.{set_of}
use movie_reservation_servic.Postgres.Rows.{ScreeningRow, SeatRow}
use movie_reservation_servic.Postgres.Mappers.{to_movie_provider, to_movie, to_screening, to_seat}
use movie_reservation_servic.Postgres.Tables.{Tables, Engine, first, order_by}

-- `row === undefined ? null : f(row)`
abbrev pub or_null : {R A : Type 0} → (R → Result A) → Option R → Result (Option A)
or_null f none = ok none
or_null f (some row) = do a ← f row; return (some a)

-- `findMovieProviderById`
unfoldable pub find_movie_provider_by_id : JsString → Tables → Result (Option MovieProvider)
unfolding filter to_movie_provider
find_movie_provider_by_id movie_provider_id t =
    or_null to_movie_provider (first (filter (λ r. r.id === movie_provider_id) t.movie_providers))

-- `findMoviesByProviderId`
unfoldable pub find_movies_by_provider_id : Engine → JsString → Tables → Result (List Movie)
unfolding filter order_by traverse to_movie
find_movies_by_provider_id e movie_provider_id t = traverse to_movie (
    order_by (λ a b. e.collates a.id b.id)
      (filter (λ r. r.movie_provider_id === movie_provider_id) t.movies))

-- `findMovieById`
unfoldable pub find_movie_by_id : JsString → JsString → Tables → Result (Option Movie)
unfolding filter to_movie
find_movie_by_id movie_provider_id movie_id t =
    or_null to_movie (
      first (filter (λ r. r.id === movie_id && r.movie_provider_id === movie_provider_id) t.movies))

-- `andWhere({ movie_id })`, where a movie is given
abbrev of_movie : Option JsString → List ScreeningRow → List ScreeningRow
of_movie none rows = rows
of_movie (some movie_id) rows = filter (λ r. r.movie_id === movie_id) rows

-- `findScreeningsByProviderId`
unfoldable pub find_screenings_by_provider_id :
    Engine → Dates → JsString → Option JsString → Tables → Result (List Screening)
unfolding filter order_by traverse to_screening
find_screenings_by_provider_id e d movie_provider_id movie_id t = traverse (to_screening d) (
    order_by (λ a b. e.at_or_before a.starts_at b.starts_at)
      (of_movie movie_id (filter (λ r. r.movie_provider_id === movie_provider_id) t.screenings)))

-- `findScreeningForProvider`
unfoldable pub find_screening_for_provider :
    Dates → JsString → JsString → Tables → Result (Option Screening)
unfolding filter to_screening
find_screening_for_provider d movie_provider_id screening_id t = or_null (to_screening d) (
    first (
      filter (λ r. r.id === screening_id && r.movie_provider_id === movie_provider_id)
        t.screenings))

-- `orderBy('row_label', 'asc').orderBy('seat_number', 'asc')`
abbrev pub seat_order : Engine → SeatRow → SeatRow → Bool
seat_order e a b =
    if a.row_label === b.row_label
    then leb a.seat_number b.seat_number
    else e.collates a.row_label b.row_label

abbrev seats_of : Engine → JsString → Option Screening → Tables → Result (List Seat)
seats_of e movie_provider_id none t = ok []
seats_of e movie_provider_id (some screening) t = traverse to_seat (
    order_by (seat_order e) (
      filter
        (λ r.
          r.movie_provider_id === movie_provider_id && r.auditorium_id === screening.auditorium_id)
        t.seats))

-- `findSeatsByScreeningId`
unfoldable pub find_seats_by_screening_id :
    Engine → Dates → JsString → JsString → Tables → Result (List Seat)
unfolding find_screening_for_provider filter order_by traverse to_seat
find_seats_by_screening_id e d movie_provider_id screening_id t = do
  screening ← find_screening_for_provider d movie_provider_id screening_id t
  seats_of e movie_provider_id screening t

abbrev or_empty : Option (List Seat) → List Seat
or_empty none = []
or_empty (some seats) = seats

-- The loop over the seats, which collects them by auditorium
unfoldable group_by_auditorium : List SeatRow → JsMap (List Seat) → Result (JsMap (List Seat))
unfolding to_seat
group_by_auditorium [] seats_by_auditorium = ok seats_by_auditorium
group_by_auditorium (row ∷ rows) seats_by_auditorium = do
  seat ← to_seat row
  group_by_auditorium rows (
      set seats_by_auditorium row.auditorium_id
        (or_empty (get seats_by_auditorium row.auditorium_id) ++ seat ∷ []))

-- The loop over the screenings
unfoldable group_by_screening :
    JsMap (List Seat) → List ScreeningRow → JsMap (List Seat) → Result (JsMap (List Seat))
group_by_screening seats_by_auditorium [] seats_by_screening = ok seats_by_screening
group_by_screening seats_by_auditorium (row ∷ rows) seats_by_screening = do
  id ← create_uuid_id row.id
  group_by_screening seats_by_auditorium rows
      (set seats_by_screening id (or_empty (get seats_by_auditorium row.auditorium_id)))

-- `findSeatsByScreeningIds`
unfoldable pub find_seats_by_screening_ids :
    Engine → JsString → List JsString → Tables → Result (JsMap (List Seat))
unfolding filter includes set_of order_by group_by_auditorium group_by_screening
find_seats_by_screening_ids e movie_provider_id screening_ids t =
    if length screening_ids == 0
    then ok []
    else let screenings =
        filter (λ r. r.movie_provider_id === movie_provider_id && includes screening_ids r.id)
          t.screenings in
      let auditorium_ids = set_of (map (λ r. r.auditorium_id) screenings) in
      let seats =
        if length auditorium_ids == 0
        then []
        else order_by (seat_order e) (
            filter
              (λ r.
                r.movie_provider_id === movie_provider_id
                && includes auditorium_ids r.auditorium_id)
              t.seats) in
      (do
        seats_by_auditorium ← group_by_auditorium seats []
        group_by_screening seats_by_auditorium screenings [])

-- The rows of the join that a seat contributes, one for each screening that the condition selects
abbrev joined : JsString → JsString → List ScreeningRow → SeatRow → List SeatRow
joined movie_provider_id screening_id screenings seat =
    map (λ c. seat)
      (filter
        (λ c.
          c.auditorium_id === seat.auditorium_id
          && c.movie_provider_id === seat.movie_provider_id
          && c.movie_provider_id === movie_provider_id
          && c.id === screening_id)
        screenings)

abbrev join_screenings : JsString → JsString → List ScreeningRow → List SeatRow → List SeatRow
join_screenings p c screenings [] = []
join_screenings p c screenings (seat ∷ seats) =
    joined p c screenings seat ++ join_screenings p c screenings seats

-- `findSeatsByIdsForScreening`
unfoldable pub find_seats_by_ids_for_screening :
    Engine → JsString → JsString → List JsString → Tables → Result (List Seat)
unfolding filter includes order_by traverse to_seat
find_seats_by_ids_for_screening e movie_provider_id screening_id seat_ids t =
    if length seat_ids == 0
    then ok []
    else traverse to_seat (
        order_by (seat_order e) (
          filter (λ r. includes seat_ids r.id)
            (join_screenings movie_provider_id screening_id t.screenings t.seats)))
