-- ===== src/Postgres/Tables.antt =====
-- The tables of src/infrastructure/database/migrations, and the statements that the repositories
-- send to them: `where` and `update` are read as SQL, on the rows of a table in the order of their
-- insertion. What the driver and the server decide is the parameter `Engine`.
use movie_reservation_servic.Prelude.{
  ℕ, ◌≡◌, Bool, false, ◌&&◌, ◌||◌, Option, none, some, List, [], ◌∷◌, ◌++◌, map, JsString, text,
  ◌===◌, Result, ok, err, Exec, filter, if◌then◌else◌,
}
use movie_reservation_servic.Errors.{Error, database_error}
use movie_reservation_servic.Postgres.Checks.{has_shape}
use movie_reservation_servic.Postgres.Rows.{
  Timestamp, MovieProviderRow, MovieRow, AuditoriumRow, ScreeningRow, SeatRow,
  ReservationRequestRow, ReservationRow, AttemptRow, RequestSeatRow, ReservationSeatRow,
}

pub record Tables : Type 0 where
  pub movie_providers : List MovieProviderRow
  pub movies : List MovieRow
  pub auditoriums : List AuditoriumRow
  pub screenings : List ScreeningRow
  pub seats : List SeatRow
  pub requests : List ReservationRequestRow
  pub request_seats : List RequestSeatRow
  pub reservations : List ReservationRow
  pub reservation_seats : List ReservationSeatRow
  pub attempts : List AttemptRow

pub record Engine : Type 1 where
  -- `database.transaction(body)`: committed when the body resolves, rolled back when it rejects
  pub transaction : {A : Type 0} → Exec Tables A → Exec Tables A
  pub transaction-commit :
      {A : Type 0} (body : Exec Tables A) (a : A) (t t' : Tables)
      → body t ≡ (ok a, t')
      → transaction body t ≡ (ok a, t')
  pub transaction-rollback :
      {A : Type 0} (body : Exec Tables A) (e : Error) (t t' : Tables)
      → body t ≡ (err e, t')
      → transaction body t ≡ (err e, t)
  -- `trx.fn.now()`, which the server evaluates
  pub now : Tables → Timestamp
  -- what a `timestamptz` column holds that was written with a text; the server refuses some
  pub timestamptz : JsString → Result Timestamp
  -- `a <= b` on two such columns
  pub at_or_before : Timestamp → Timestamp → Bool
  -- a row that another transaction has locked, which `skipLocked` leaves out
  pub is_locked : Tables → ReservationRequestRow → Bool
  -- the next value of `generated always as identity`
  pub next_identity : Tables → ℕ
  -- foreign keys and the other constraints that no code of the repositories reads
  pub check_references : Tables → Result (Unit {0})
  -- `orderBy` on a text column
  pub collates : JsString → JsString → Bool

abbrev pub first : {A : Type 0} → List A → Option A
first [] = none
first (x ∷ xs) = some x

-- `where(p).update(f)`
unfoldable pub update_where : {A : Type 0} → (A → Bool) → (A → A) → List A → List A
update_where p f [] = []
update_where p f (x ∷ xs) = let rest = update_where p f xs in if p x then f x ∷ rest else x ∷ rest

-- `orderBy(key, 'asc')`, by the order of the key; equal keys stay as they are
unfoldable pub insert_by : {A : Type 0} → (A → A → Bool) → A → List A → List A
insert_by le x [] = x ∷ []
insert_by le x (y ∷ ys) = let rest = insert_by le x ys in if le x y then x ∷ y ∷ ys else y ∷ rest

unfoldable pub order_by : {A : Type 0} → (A → A → Bool) → List A → List A
unfolding insert_by
order_by le [] = []
order_by le (x ∷ xs) = insert_by le x (order_by le xs)

-- `where({ id })`
abbrev pub has_request_id : JsString → ReservationRequestRow → Bool
has_request_id id row = row.id === id

-- `update(f).returning('*')` on `reservation_requests`
unfoldable pub update_requests :
    (ReservationRequestRow → Bool)
    → (ReservationRequestRow → ReservationRequestRow)
    → Exec Tables (List ReservationRequestRow)
unfolding update_where filter
update_requests p f t =
    (ok (map f (filter p t.requests)), record t { requests = update_where p f t.requests })

-- A statement that inserts: a unique index refuses it, or the rest of the schema does.
abbrev pub inserting : Engine → Bool → JsString → Tables → Exec Tables (Unit {0})
inserting e is_duplicate constraint t' t =
    if is_duplicate
    then (err (database_error (text "23505") constraint), t)
    else elim (e.check_references t') [ ok _ ↦ (ok tt, t') | err x ↦ (err x, t) ]

abbrev pub any : {A : Type 0} → (A → Bool) → List A → Bool
any p [] = false
any p (x ∷ xs) = p x || any p xs

-- A row of `reservation_requests`; its primary key is the id. Its sequence is unique too, but the
-- server, which generates it always, gives no number twice.
unfoldable pub insert_request : Engine → ReservationRequestRow → Exec Tables (Unit {0})
insert_request e row t =
    inserting e (any (has_request_id row.id) t.requests) (text "reservation_requests_pkey")
      (record t { requests = t.requests ++ row ∷ [] }) t

-- Rows of `reservation_request_seats`
unfoldable pub insert_request_seats : Engine → List RequestSeatRow → Exec Tables (Unit {0})
insert_request_seats e rows t =
    inserting e (repeats t.request_seats rows) (text "reservation_request_seats_pkey")
      (record t { request_seats = t.request_seats ++ rows }) t
  where
    same_key : RequestSeatRow → RequestSeatRow → Bool
    same_key a b = a.reservation_request_id === b.reservation_request_id && a.seat_id === b.seat_id

    repeats : List RequestSeatRow → List RequestSeatRow → Bool
    repeats old [] = false
    repeats old (x ∷ xs) = any (same_key x) old || repeats (old ++ x ∷ []) xs

-- A row of `reservations`: its id is the primary key, and a request has at most one.
unfoldable pub insert_reservation_row : Engine → ReservationRow → Exec Tables (Unit {0})
insert_reservation_row e row t =
    if any (λ r. r.id === row.id) t.reservations
    then (err (database_error (text "23505") (text "reservations_pkey")), t)
    else inserting e
        (any (λ r. r.reservation_request_id === row.reservation_request_id) t.reservations)
        (text "reservations_reservation_request_id_unique")
        (record t { reservations = t.reservations ++ row ∷ [] }) t

-- The key of `reservation_seats_screening_id_seat_id_unique`
abbrev pub same_seat : ReservationSeatRow → ReservationSeatRow → Bool
same_seat a b = a.screening_id === b.screening_id && a.seat_id === b.seat_id

-- A row meets one of the table, or one that is inserted before it.
unfoldable pub takes_taken : List ReservationSeatRow → List ReservationSeatRow → Bool
takes_taken old [] = false
takes_taken old (x ∷ xs) = any (same_seat x) old || takes_taken (old ++ x ∷ []) xs

-- Rows of `reservation_seats`. The ids of the reservation and of the seats are a key too, which is
-- met only where the screening and the seats are met.
unfoldable pub insert_reservation_seats : Engine → List ReservationSeatRow → Exec Tables (Unit {0})
unfolding takes_taken
insert_reservation_seats e rows t =
    inserting e (takes_taken t.reservation_seats rows)
      (text "reservation_seats_screening_id_seat_id_unique")
      (record t { reservation_seats = t.reservation_seats ++ rows }) t

-- A row of `reservation_request_processing_attempts`
unfoldable pub insert_attempt_row : Engine → AttemptRow → Exec Tables (Unit {0})
unfolding has_shape
insert_attempt_row e row t =
    if has_shape row
    then inserting e false [] (record t { attempts = t.attempts ++ row ∷ [] }) t
    else (
      err (
          database_error (text "23514")
            (text "reservation_request_processing_attempts_shape_check")),
      t,
    )
