-- ===== src/Postgres/Seating.antt =====
-- What `read` of postgres-screening-availability.reader.ts tells of a seat.
use movie_reservation_servic.Prelude.{
  ◌≡◌, ◌≢◌, ◌↔◌, ◌⊎◌, ===_iff, refl, sym, ap, ◌∙◌, subst, inl, inr, true, false, arith, Option,
  none, some, List, [], ◌∷◌, ◌++◌, Has, JsString, ◌===◌, ◌&&◌, ok, filter, map, Bool-cases,
  Option-cases, Result-cases,
}
use mathlib.Core.Option.{some-injective}
use movie_reservation_servic.Domain.Ids.{create_uuid_id}
use movie_reservation_servic.Memory.Reads.{SeatAvailability, ScreeningAvailability}
use movie_reservation_servic.Postgres.Rows.{ScreeningRow, SeatRow, ReservationSeatRow}
use movie_reservation_servic.Postgres.Tables.{Tables}
use movie_reservation_servic.Postgres.Order.{Has-filter}
use movie_reservation_servic.Postgres.Availability.{
  AvailabilityRow, read_rows, left_join, flat_map, reserves, stands_in, to_row, rows_of, is_null,
  availability_rows, seats_of, read,
}

Has-append : {A : Type 0} (xs ys : List A) (a : A) → Has a (xs ++ ys) → Has a xs ⊎ Has a ys
Has-append [] ys a m = inr m
Has-append (x ∷ xs) ys a m = elim m [
  | inl e ↦ inl (inl e)
  | inr n ↦ elim (Has-append xs ys a n) [ inl k ↦ inl (inr k) | inr k ↦ inr k ]
]

Has-map :
    {A B : Type 0} (f : A → B) (xs : List A) (b : B)
    → Has b (map f xs)
    → (a : A) × Has a xs × (f a ≡ b)
Has-map f [] b m = absurd m
Has-map f (x ∷ xs) b m = elim m [
  | inl e ↦ (x, inl refl, e)
  | inr n ↦ let (a, k, e) = Has-map f xs b n in (a, inr k, e)
]

Has-flat_map :
    {A B : Type 0} (f : A → List B) (xs : List A) (b : B)
    → Has b (flat_map f xs)
    → (a : A) × Has a xs × Has b (f a)
unfolding flat_map
Has-flat_map f [] b m = absurd m
Has-flat_map f (x ∷ xs) b m = elim (Has-append (f x) (flat_map f xs) b m) [
  | inl k ↦ (x, inl refl, k)
  | inr n ↦ let (a, k, l) = Has-flat_map f xs b n in (a, inr k, l)
]

Has-left_join :
    {A : Type 0} (xs : List A) (o : Option A)
    → Has o (left_join xs)
    → ((o ≡ none) × (xs ≡ [])) ⊎ ((a : A) × (o ≡ some a) × Has a xs)
Has-left_join [] o m = elim m [ inl e ↦ inl (sym e, refl) | inr n ↦ absurd n ]
Has-left_join (x ∷ xs) o m = elim m [
  | inl e ↦ inr (x, sym e, inl refl)
  | inr n ↦ let (a, k, e) = Has-map some xs o n in inr (a, sym e, inr k)
]

-- A seat of the answer comes from a row of the query.
abbrev FromRow : SeatAvailability → AvailabilityRow → Type 0
FromRow x row =
    (id : JsString) × (row.seat_id ≡ some id)
    × (create_uuid_id id ≡ ok x.seat_id)
    × (x.available ≡ is_null row.reserved_seat_id)

Has-seats_of :
    (rows : List AvailabilityRow) (seats : List SeatAvailability) (x : SeatAvailability)
    → seats_of rows ≡ ok seats
    → Has x seats
    → (row : AvailabilityRow) × Has row rows × FromRow x row
unfolding seats_of
Has-seats_of [] seats x h m = absurd (subst (Has x) {x = seats} {y = []} (ground arith) m)
Has-seats_of (row ∷ rows) seats x h m = elim (Result-cases (seats_of rows)) [
  | inr (y, bad) ↦ elim (Option-cases row.seat_id) [
    | inl null ↦ absurd (ground arith)
    | inr (id, e_id) ↦ elim (Result-cases (create_uuid_id id)) [
      | inr (z, worse) ↦ absurd (ground arith)
      | inl (seat_id, e_seat) ↦ absurd (ground arith)
    ]
  ]
  | inl (rest, e_rest) ↦ elim (Option-cases row.seat_id) [
    | inl null ↦
        let (row', k, from) =
          Has-seats_of rows rest x e_rest (subst (Has x) {x = seats} {y = rest} (ground arith) m) in
        (row', inr k, from)
    | inr (id, e_id) ↦ elim (Result-cases (create_uuid_id id)) [
      | inr (y, bad) ↦ absurd (ground arith)
      | inl (seat_id, e_seat) ↦
          let this : SeatAvailability = record {
            seat_id = seat_id;
            available = is_null row.reserved_seat_id;
          } in
          elim (subst (Has x) {x = seats} {y = this ∷ rest} (ground arith) m) [
            | inl e ↦ (
              row,
              inl refl,
              (id, e_id, e_seat ∙ ap (λ z. ok z.seat_id) e, sym (ap (λ z. z.available) e)),
            )
            | inr n ↦ let (row', k, from) = Has-seats_of rows rest x e_rest n in (row', inr k, from)
          ]
    ]
  ]
]

-- The rows of `reservation_seats` for a screening are its provider's own.
abbrev pub IsOwn : JsString → JsString → Tables → Type 0
IsOwn p c t =
    (r : ReservationSeatRow)
    → Has r t.reservation_seats
    → r.screening_id ≡ c
    → r.movie_provider_id ≡ p

-- No reservation holds the seat for the screening.
abbrev pub IsFree : JsString → JsString → Tables → Type 0
IsFree c seat_id t =
    (r : ReservationSeatRow) → Has r t.reservation_seats → r.screening_id ≡ c → r.seat_id ≢ seat_id

-- The seats of a screening, and whether a reservation holds one
pub record Tells (p c : JsString) (t : Tables) (x : SeatAvailability) : Type 0 where
  pub screening : ScreeningRow
  pub seat : SeatRow
  pub scheduled : Has screening t.screenings
  pub asked_for : screening.id ≡ c
  pub of_provider : screening.movie_provider_id ≡ p
  pub installed : Has seat t.seats
  pub in_auditorium : seat.auditorium_id ≡ screening.auditorium_id
  pub of_same_provider : seat.movie_provider_id ≡ p
  pub same_seat : create_uuid_id seat.id ≡ ok x.seat_id
  pub free_iff : (x.available ≡ true) ↔ IsFree c seat.id t

-- The condition of the join, in the words of the tables
reserves_iff :
    (screening : ScreeningRow) (seat : SeatRow) (r : ReservationSeatRow)
    → (reserves screening seat r ≡ true) ↔ (
        (r.movie_provider_id ≡ screening.movie_provider_id)
        × (r.screening_id ≡ screening.id)
        × (r.seat_id ≡ seat.id))
reserves_iff screening seat r = ground (
  arith,
  ===_iff r.movie_provider_id screening.movie_provider_id,
  ===_iff r.screening_id screening.id,
  ===_iff r.seat_id seat.id,
)

module _ (p c : JsString) (t : Tables) (own : IsOwn p c t) (screening : ScreeningRow)
    (seat : SeatRow) (same : screening.id ≡ c) (of_provider : screening.movie_provider_id ≡ p) where
  unreserved_iff :
      ((r : ReservationSeatRow) → Has r t.reservation_seats → reserves screening seat r ≡ false)
      ↔ IsFree c seat.id t
  unreserved_iff = (
    λ h r m at_screening on_seat.
        let held =
          (reserves_iff screening seat r).1
            (own r m at_screening ∙ sym of_provider, at_screening ∙ sym same, on_seat) in
        absurd (ground (arith, h r m, held)),
    λ h r m. elim (Bool-cases (reserves screening seat r)) [
      | inl held ↦
          let (x, at_screening, on_seat) = (reserves_iff screening seat r).0 held in
          absurd (h r m (at_screening ∙ same) on_seat)
      | inr free ↦ free
    ],
  )

free_of_row :
    (t : Tables) (screening : ScreeningRow) (seat : SeatRow) (row : AvailabilityRow)
    → Has row (rows_of t screening (some seat))
    → (row.seat_id ≡ some seat.id)
      × ((is_null row.reserved_seat_id ≡ true) ↔ (
          (r : ReservationSeatRow) → Has r t.reservation_seats → reserves screening seat r ≡ false))
free_of_row t screening seat row m =
    let matches = filter (reserves screening seat) t.reservation_seats in
    let (o, k, e) = Has-map (to_row (some seat.id)) (left_join matches) row m in
    elim (Has-left_join matches o k) [
      | inl (null, nobody) ↦
          let same : to_row (some seat.id) none ≡ row =
            subst (λ z. to_row (some seat.id) z ≡ row) null e in
          (
            sym (ap (λ z. z.seat_id) same),
            (
              λ h r n. elim (Bool-cases (reserves screening seat r)) [
                | inl held ↦ absurd (
                    subst (Has r) nobody
                      ((Has-filter (reserves screening seat) t.reservation_seats r).1 (n, held)))
                | inr free ↦ free
              ],
              λ h. ap (λ z. is_null z.reserved_seat_id) (sym same),
            ),
          )
      | inr (r, taken, n) ↦
          let (stored, held) = (Has-filter (reserves screening seat) t.reservation_seats r).0 n in
          let same : to_row (some seat.id) (some r) ≡ row =
            subst (λ z. to_row (some seat.id) z ≡ row) taken e in
          let not_free : is_null row.reserved_seat_id ≡ false =
            ap (λ z. is_null z.reserved_seat_id) (sym same) in
          (
            sym (ap (λ z. z.seat_id) same),
            (λ h. absurd (ground arith), λ h. absurd (ground (arith, h r stored))),
          )
    ]

read_rows-ok :
    (c : JsString) (rows : List AvailabilityRow) (a : ScreeningAvailability)
    → read_rows c rows ≡ ok (some a)
    → seats_of rows ≡ ok a.seats
read_rows-ok c [] a h = absurd (ground arith)
read_rows-ok c (row ∷ rows) a h = elim (Result-cases (seats_of (row ∷ rows))) [
  | inl (seats, e) ↦ ground arith
  | inr (y, bad) ↦ absurd (ground arith)
]

-- A screening without seats contributes a row that names none.
rows_of-null :
    (t : Tables) (screening : ScreeningRow) (row : AvailabilityRow)
    → Has row (rows_of t screening none)
    → row.seat_id ≡ none
rows_of-null t screening row m = elim m [ inl e ↦ sym (ap (λ z. z.seat_id) e) | inr n ↦ absurd n ]

-- Where the reservation rows of the screening that was asked for carry the provider that asks, a seat
-- that the answer lists is that provider's, stands in the auditorium of that provider's screening of
-- that id, and is available exactly when no reservation row of that screening names it.
pub read-Tells :
    (p c : JsString) (t : Tables) (a : ScreeningAvailability) (x : SeatAvailability)
    → IsOwn p c t
    → read p c t ≡ ok (some a)
    → Has x a.seats
    → Tells p c t x
unfolding read availability_rows
read-Tells p c t a x own h m =
    let rows = availability_rows p c t in
    let (row, in_rows, from) = Has-seats_of rows a.seats x (read_rows-ok c rows a h) m in
    let (id, e_id, e_seat, e_free) = from in
    let asked = λ (k : ScreeningRow). k.movie_provider_id === p && k.id === c in
    let per_seat =
      λ (k : ScreeningRow). flat_map (rows_of t k) (left_join (filter (stands_in k) t.seats)) in
    let (screening, in_asked, in_screening) =
      Has-flat_map per_seat (filter asked t.screenings) row in_rows in
    let (scheduled, of_provider) = (Has-filter asked t.screenings screening).0 in_asked in
    let (o, in_seats, in_row) =
      Has-flat_map (rows_of t screening) (left_join (filter (stands_in screening) t.seats)) row
        in_screening in
    elim (Has-left_join (filter (stands_in screening) t.seats) o in_seats) [
      | inl (null, nobody) ↦
          let none_id =
            rows_of-null t screening row
              (subst (λ z. Has row (rows_of t screening z)) null in_row) in
          absurd (ground arith)
      | inr (seat, e_o, in_filter) ↦
          let (installed, in_auditorium) =
            (Has-filter (stands_in screening) t.seats seat).0 in_filter in
          let (e_row, free) =
            free_of_row t screening seat row
              (subst (λ z. Has row (rows_of t screening z)) e_o in_row) in
          let (provided, same_id) : (screening.movie_provider_id ≡ p) × (screening.id ≡ c) =
            ground (arith, ===_iff screening.movie_provider_id p, ===_iff screening.id c) in
          let (seat_provided, in_hall) : (seat.movie_provider_id ≡ screening.movie_provider_id)
              × (seat.auditorium_id ≡ screening.auditorium_id) =
            ground (
              arith,
              ===_iff seat.movie_provider_id screening.movie_provider_id,
              ===_iff seat.auditorium_id screening.auditorium_id,
            ) in
          let known = unreserved_iff p c t own screening seat same_id provided in
          let same : id ≡ seat.id = some-injective id seat.id (sym e_id ∙ e_row) in
          record {
            screening = screening;
            seat = seat;
            scheduled = scheduled;
            asked_for = same_id;
            of_provider = provided;
            installed = installed;
            in_auditorium = in_hall;
            of_same_provider = seat_provided ∙ provided;
            same_seat = subst (λ z. create_uuid_id z ≡ ok x.seat_id) same e_seat;
            free_iff = (λ k. known.0 (free.0 (sym e_free ∙ k)), λ k. e_free ∙ free.1 (known.1 k));
          }
    ]
