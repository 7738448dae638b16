-- ===== src/Postgres/Unique.antt =====
-- The unique index of `reservation_seats`, and confirmations.
use movie_reservation_servic.Prelude.{
  ◌≡◌, refl, sym, ◌∙◌, subst, ◌⊎◌, inl, inr, true, false, arith, List, [], ◌∷◌, Has, ◌++◌, Bool,
  JsString, includes, ===_iff, Result, ok, err, map,
}
use mathlib.Core.List.{append-nil, append_assoc}
use movie_reservation_servic.Dates.{Dates}
use movie_reservation_servic.Domain.Request.{ReservationRequest}
use movie_reservation_servic.Domain.Reservation.{Reservation}
use movie_reservation_servic.Work.{ClaimedReservationRequest, ConfirmedAttempt, ConfirmResult}
use movie_reservation_servic.Postgres.Rows.{ReservationSeatRow}
use movie_reservation_servic.Postgres.Tables.{Tables, Engine, any, same_seat, takes_taken}
use movie_reservation_servic.Postgres.Booking.{confirm_claimed, seat_row}
use movie_reservation_servic.Postgres.Conflict.{Ends, confirm_claimed-Ends}

-- No two rows name the same seat of the same screening.
abbrev pub IsUnique : List ReservationSeatRow → Type 0
IsUnique [] = Unit
IsUnique (x ∷ xs) = ((y : ReservationSeatRow) → Has y xs → same_seat x y ≡ false) × IsUnique xs

any-none :
    {A : Type 0} (p : A → Bool) (xs : List A) (a : A) → any p xs ≡ false → Has a xs → p a ≡ false
any-none p [] a h m = absurd m
any-none p (x ∷ xs) a h m = elim m [
  | inl e ↦ subst (λ z. p z ≡ false) e (ground arith)
  | inr n ↦ any-none p xs a (ground arith) n
]

same_seat_comm : (a b : ReservationSeatRow) → same_seat a b ≡ same_seat b a
same_seat_comm a b = ground (
  arith,
  ===_iff a.screening_id b.screening_id,
  ===_iff b.screening_id a.screening_id,
  ===_iff a.seat_id b.seat_id,
  ===_iff b.seat_id a.seat_id,
)

IsUnique-snoc :
    (old : List ReservationSeatRow) (x : ReservationSeatRow)
    → IsUnique old
    → any (same_seat x) old ≡ false
    → IsUnique (old ++ x ∷ [])
IsUnique-snoc [] x u h = (λ y m. absurd m, tt)
IsUnique-snoc (o ∷ old) x u h = (
  λ y m. elim (Has-snoc old y m) [
    | inl n ↦ u.0 y n
    | inr e ↦
        subst (λ z. same_seat o z ≡ false) e
          (same_seat_comm o x ∙ any-none (same_seat x) (o ∷ old) o h (inl refl))
  ],
  IsUnique-snoc old x u.1 (ground arith),
)
  where
    Has-snoc :
        (xs : List ReservationSeatRow) (y : ReservationSeatRow)
        → Has y (xs ++ x ∷ [])
        → Has y xs ⊎ (x ≡ y)
    Has-snoc [] y m = ground arith
    Has-snoc (z ∷ xs) y m = elim m [
      | inl e ↦ inl (inl e)
      | inr n ↦ elim (Has-snoc xs y n) [ inl k ↦ inl (inr k) | inr e ↦ inr e ]
    ]

pub IsUnique-append :
    (old rows : List ReservationSeatRow)
    → IsUnique old
    → takes_taken old rows ≡ false
    → IsUnique (old ++ rows)
unfolding takes_taken
IsUnique-append old [] u h = rw (append-nil old) u
IsUnique-append old (x ∷ xs) u h =
    subst IsUnique (append_assoc old (x ∷ []) xs)
      (IsUnique-append (old ++ x ∷ []) xs (IsUnique-snoc old x u (ground arith)) (ground arith))

-- A seat of the inserted rows is in no row that was there.
takes_taken-free :
    (old : List ReservationSeatRow) (row : JsString → ReservationSeatRow) (seat_ids : List JsString)
    (taken : ReservationSeatRow)
    → ((id : JsString) → (row id).seat_id ≡ id)
    → ((id : JsString) → (row id).screening_id ≡ taken.screening_id)
    → takes_taken old (map row seat_ids) ≡ false
    → Has taken old
    → includes seat_ids taken.seat_id ≡ false
unfolding takes_taken includes
takes_taken-free old row [] taken hs hc h m = refl
takes_taken-free old row (id ∷ ids) taken hs hc h m =
    let other = any-none (same_seat (row id)) old taken (ground arith) m in
    let rest =
      takes_taken-free (old ++ row id ∷ []) row ids taken hs hc (ground arith) (Has-left old m) in
    ground (arith, other, rest, hs id, hc id, ===_iff (row id).screening_id taken.screening_id)
  where
    Has-left : (xs : List ReservationSeatRow) → Has taken xs → Has taken (xs ++ row id ∷ [])
    Has-left [] n = absurd n
    Has-left (x ∷ xs) n = elim n [ inl e ↦ inl e | inr k ↦ inr (Has-left xs k) ]

module _ (e : Engine) (d : Dates) (item : ClaimedReservationRequest) (reservation : Reservation)
    (attempt : ConfirmedAttempt) (t : Tables) where
  Ends-IsUnique :
      (r : Result ConfirmResult) (t' : Tables)
      → Ends e d item reservation attempt r t t'
      → IsUnique t.reservation_seats
      → IsUnique t'.reservation_seats
  Ends-IsUnique (ok (ConfirmResult.confirmed q)) t' h u =
      subst (λ x. IsUnique x.reservation_seats) (sym h.settled.after)
        (IsUnique-append t.reservation_seats
          (map (seat_row reservation h.screening.auditorium_id) reservation.seat_ids) u h.free)
  Ends-IsUnique (ok (ConfirmResult.rejected q a)) t' h u =
      subst (λ x. IsUnique x.reservation_seats) (sym h.settled.after) u
  Ends-IsUnique (err x) t' h u = subst (λ x. IsUnique x.reservation_seats) (sym h) u

  -- A confirmation, however it ends, leaves no seat of a screening reserved twice when none was.
  pub confirm_claimed-IsUnique :
      IsUnique t.reservation_seats
      → IsUnique (confirm_claimed e d item reservation attempt t).1.reservation_seats
  confirm_claimed-IsUnique u =
      Ends-IsUnique (confirm_claimed e d item reservation attempt t).0
        (confirm_claimed e d item reservation attempt t).1
        (confirm_claimed-Ends e d item reservation attempt t) u

  -- When a stored row holds one of the seats at the screening, the confirmation does not confirm.
  pub confirm_claimed_taken :
      (taken : ReservationSeatRow)
      → Has taken t.reservation_seats
      → taken.screening_id ≡ reservation.screening_id
      → includes reservation.seat_ids taken.seat_id ≡ true
      → (q : ReservationRequest)
      → ¬ ((confirm_claimed e d item reservation attempt t).0 ≡ ok (ConfirmResult.confirmed q))
  confirm_claimed_taken taken m same_screening wanted q h =
      let end =
        subst
          (λ r.
            Ends e d item reservation attempt r t
              (confirm_claimed e d item reservation attempt t).1)
          h (confirm_claimed-Ends e d item reservation attempt t) in
      let free =
        takes_taken-free t.reservation_seats (seat_row reservation end.screening.auditorium_id)
          reservation.seat_ids taken (λ id. refl) (λ id. sym same_screening) end.free m in
      ground arith
