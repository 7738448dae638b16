-- ===== src/Postgres/Beats.antt =====
-- `heartbeatClaimedReservationRequest` of postgres-reservation-request-claimer.ts, for the owner of
-- a claim and for anybody else.
use movie_reservation_servic.Prelude.{
  ◌≡◌, ◌⊎◌, refl, sym, ap, ◌∙◌, subst, inl, inr, true, false, arith, List, [], ◌∷◌, Has, length,
  Bool, JsString, ◌===◌, ===_iff, some, ok, filter, map, Bool-cases,
}
use movie_reservation_servic.Work.{ClaimedReservationRequest}
use movie_reservation_servic.Postgres.Rows.{Timestamp, ReservationRequestRow}
use movie_reservation_servic.Postgres.Tables.{Tables, Engine, update_where, update_requests}
use movie_reservation_servic.Postgres.Claimer.{is_held, heartbeat}
use movie_reservation_servic.Postgres.Order.{Has-filter}
use movie_reservation_servic.Postgres.Outcomes.{List-cases}

-- The primary key of `reservation_requests`
abbrev pub IsKeyed : List ReservationRequestRow → Type 0
IsKeyed [] = Unit
IsKeyed (x ∷ xs) = ((y : ReservationRequestRow) → Has y xs → y.id === x.id ≡ false) × IsKeyed xs

update_where_none :
    {A : Type 0} (p : A → Bool) (f : A → A) (xs : List A)
    → filter p xs ≡ []
    → update_where p f xs ≡ xs
unfolding filter update_where
update_where_none p f [] h = refl
update_where_none p f (x ∷ xs) h = elim (Bool-cases (p x)) [
  | inl yes_x ↦ absurd (ground arith)
  | inr no_x ↦ ground (arith, update_where_none p f xs)
]

length-map : {A B : Type 0} (f : A → B) (xs : List A) → length (map f xs) ≡ length xs
length-map f [] = refl
length-map f (x ∷ xs) = omega (arith, length-map f xs)

module _ (item : ClaimedReservationRequest) where
  is_held-id :
      (row : ReservationRequestRow) → is_held item row ≡ true → row.id ≡ item.reservation_request.id
  unfolding is_held
  is_held-id row h = ground (arith, ===_iff row.id item.reservation_request.id)

  length-held :
      (xs : List ReservationRequestRow)
      → IsKeyed xs
      → (row : ReservationRequestRow) → Has row xs
      → is_held item row ≡ true
      → length (filter (is_held item) xs) ≡ 1
  unfolding filter
  length-held [] k row m h = absurd m
  length-held (x ∷ xs) k row m h = elim (Bool-cases (is_held item x)) [
    | inl held ↦ elim (List-cases (filter (is_held item) xs)) [
      | inl alone ↦ rw (held, alone) refl
      | inr (y, rest, more) ↦
          let (in_xs, held_y) =
            (Has-filter (is_held item) xs y).0 (subst (Has y) (sym more) (inl refl)) in
          absurd (
            ground (
              arith,
              k.0 y in_xs,
              (===_iff y.id x.id).1 (is_held-id y held_y ∙ sym (is_held-id x held)),
            ))
    ]
    | inr other ↦ elim m [
      | inl e ↦ absurd (ground (arith, ap (is_held item) e))
      | inr n ↦ rw other (length-held xs k.1 row n h)
    ]
  ]

  module _ (e : Engine) (heartbeat_at claim_expires_at : JsString) (beat_at expires_at : Timestamp)
      (t : Tables) where
    abbrev pub beat : ReservationRequestRow → ReservationRequestRow
    beat row = record row {
      claim_expires_at = some expires_at;
      last_heartbeat_at = some beat_at;
      updated_at = beat_at;
    }

    -- A heartbeat says whether the worker still holds its claim. It holds the claim, and then the
    -- claim's row is extended; or it does not, and then nothing is written. The table is keyed by
    -- the ids, and its columns take the times.
    pub heartbeat_lem :
        IsKeyed t.requests
        → e.timestamptz heartbeat_at ≡ ok beat_at
        → e.timestamptz claim_expires_at ≡ ok expires_at
        → ((row : ReservationRequestRow) × Has row t.requests
            × (is_held item row ≡ true)
            × (heartbeat e item heartbeat_at claim_expires_at t
                ≡ (ok true, record t { requests = update_where (is_held item) beat t.requests })))
          ⊎ (((row : ReservationRequestRow) → Has row t.requests → is_held item row ≡ false)
              × (heartbeat e item heartbeat_at claim_expires_at t ≡ (ok false, t)))
    unfolding heartbeat update_requests
    heartbeat_lem keyed e_b e_x = elim (List-cases (filter (is_held item) t.requests)) [
      | inl nobody ↦ inr (
        λ row m. elim (Bool-cases (is_held item row)) [
          | inl held ↦
              absurd
                (subst (Has row) nobody ((Has-filter (is_held item) t.requests row).1 (m, held)))
          | inr free ↦ free
        ],
        ground (arith, e_b, e_x, nobody, update_where_none (is_held item) beat t.requests),
      )
      | inr (row, rest, some_row) ↦
          let (m, held) =
            (Has-filter (is_held item) t.requests row).0
              (subst (Has row) (sym some_row) (inl refl)) in
          inl (
            row,
            m,
            held,
            ground (
              arith,
              e_b,
              e_x,
              length-held t.requests keyed row m held,
              length-map beat (filter (is_held item) t.requests),
            ),
          )
    ]
