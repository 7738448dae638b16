-- ===== src/Memory/Race.antt =====
-- Two calls of confirmClaimedReservationRequest that run across each other's `await`.
use movie_reservation_servic.Prelude.{
  ◌≡◌, ◌≢◌, ◌∙◌, sym, subst, true, false, none, some, JsString, ok, Exec, pure, ◌>>=◌, includes,
  arith,
}
use movie_reservation_servic.Prelude.JsMap.{get, set, has, values, get-set_self, get-set_ne}
use movie_reservation_servic.Domain.Request.{processing, confirmed, ReservationRequest}
use movie_reservation_servic.Domain.Reservation.{Reservation}
use movie_reservation_servic.Work
use movie_reservation_servic.Work.{
  ClaimedReservationRequest, ConfirmedAttempt, ConfirmResult, ProcessingAttempt,
}
use movie_reservation_servic.Memory.Store.{WorkMetadata, Store}
use movie_reservation_servic.Memory.Metadata.{unclaimed}
use movie_reservation_servic.Memory.Settle.{first_conflict, begin_confirm, end_confirm}
use movie_reservation_servic.Memory.Invariant.{IsWellFormed}
use movie_reservation_servic.Memory.Owned.{
  IsOwned, require_claimed_of_IsOwned, settled, with_status,
}
use movie_reservation_servic.Memory.Exclusive.{IsExclusive}

-- Two calls of `confirmClaimedReservationRequest`, the second begun before the first goes on.
unfoldable pub confirm_both :
    ClaimedReservationRequest
    → Reservation
    → ConfirmedAttempt
    → ClaimedReservationRequest
    → Reservation
    → ConfirmedAttempt
    → Exec Store (ConfirmResult × ConfirmResult)
confirm_both c reservation a c' reservation' a' = do
  checked ← begin_confirm c reservation
  checked' ← begin_confirm c' reservation'
  result ← end_confirm c reservation a checked.0 checked.1
  result' ← end_confirm c' reservation' a' checked'.0 checked'.1
  pure (result, result')

-- The store after a confirmation that has found no conflict.
abbrev booked : Store → Reservation → ReservationRequest → WorkMetadata → ConfirmedAttempt → Store
booked s reservation r m a =
    settled (record s { reservations = set s.reservations reservation.id reservation })
      (with_status r confirmed) (unclaimed m) (Work.ProcessingAttempt.confirmed a)

begin_confirm_free :
    (c : ClaimedReservationRequest) (reservation : Reservation) (s : Store) (r : ReservationRequest)
    (m : WorkMetadata)
    → IsOwned s c r m
    → has s.reservations reservation.id ≡ false
    → first_conflict reservation.screening_id reservation.seat_ids (values s.reservations) ≡ none
    → begin_confirm c reservation s ≡ (ok (r, none), s)
unfolding begin_confirm
begin_confirm_free c reservation s r m o new free =
    ground (arith, require_claimed_of_IsOwned c s r m o)

end_confirm_free :
    (c : ClaimedReservationRequest) (reservation : Reservation) (a : ConfirmedAttempt) (s : Store)
    (r : ReservationRequest) (m : WorkMetadata)
    → r.status ≡ processing
    → get s.work_metadata r.id ≡ some m
    → end_confirm c reservation a r none s
      ≡ (ok (Work.ConfirmResult.confirmed (with_status r confirmed)), booked s reservation r m a)
unfolding end_confirm
end_confirm_free c reservation a s r m p tracked = ground arith

-- Two owned claims of different requests for one free seat, confirmed across each other, are both
-- CONFIRMED, and the seat is reserved twice.
pub confirm_both-not-IsExclusive :
    (c c' : ClaimedReservationRequest) (reservation reservation' : Reservation)
    (a a' : ConfirmedAttempt) (s : Store) (r r' : ReservationRequest) (m m' : WorkMetadata)
    (seat : JsString)
    → IsWellFormed s
    → IsOwned s c r m
    → IsOwned s c' r' m'
    → r.id ≢ r'.id
    → reservation.id ≢ reservation'.id
    → has s.reservations reservation.id ≡ false
    → has s.reservations reservation'.id ≡ false
    → first_conflict reservation.screening_id reservation.seat_ids (values s.reservations) ≡ none
    → first_conflict reservation'.screening_id reservation'.seat_ids (values s.reservations) ≡ none
    → reservation.screening_id ≡ reservation'.screening_id
    → includes reservation.seat_ids seat ≡ true
    → includes reservation'.seat_ids seat ≡ true
    → (t : Store) × (confirm_both c reservation a c' reservation' a' s ≡ (
      ok (
        Work.ConfirmResult.confirmed (with_status r confirmed),
        Work.ConfirmResult.confirmed (with_status r' confirmed),
      ),
      t,
    ))
      × ¬ IsExclusive t.reservations
unfolding confirm_both
confirm_both-not-IsExclusive c c' reservation reservation' a a' s r r' m m' seat h o o' ne apart new
      new' free free' same in_one in_other =
    let named : get s.work_metadata r.id ≡ some m =
      subst (λ k. get s.work_metadata k ≡ some m) (sym (h.keyed _ r o.stored)) o.tracked in
    let named' : get s.work_metadata r'.id ≡ some m' =
      subst (λ k. get s.work_metadata k ≡ some m') (sym (h.keyed _ r' o'.stored)) o'.tracked in
    let t = booked s reservation r m a in
    let seen' : get t.work_metadata r'.id ≡ some m' =
      get-set_ne s.work_metadata r.id (unclaimed m) r'.id ne ∙ named' in
    (
      booked t reservation' r' m' a',
      ground (
        arith,
        begin_confirm_free c reservation s r m o new free,
        begin_confirm_free c' reservation' s r' m' o' new' free',
        end_confirm_free c reservation a s r m o.status named,
        end_confirm_free c' reservation' a' t r' m' o'.status seen',
      ),
      λ x.
          x.apart reservation.id reservation'.id reservation reservation'
            (get-set_ne t.reservations reservation'.id reservation' reservation.id
                (λ e. apart (sym e))
              ∙ get-set_self s.reservations reservation.id reservation)
            (get-set_self t.reservations reservation'.id reservation') apart same seat in_one
            in_other,
    )
