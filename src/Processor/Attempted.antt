-- ===== src/Processor/Attempted.antt =====
-- What one attempt at a claimed work item reports, and what the store holds then.
use movie_reservation_servic.Prelude.{
  subst, ◌≡◌, sym, ap, ◌∙◌, Result-cases, refl, false, Option, none, some, JsString, pure, lift,
  Bool-cases, inl, inr,
}
use movie_reservation_servic.Prelude.JsMap.{values}
use movie_reservation_servic.Domain.Request.Laws.{create_reservation_iff}
use movie_reservation_servic.Domain.Reservation.{Reservation, create_reservation}
use movie_reservation_servic.Work
use movie_reservation_servic.Work.{ClaimedReservationRequest, ConfirmResult, ConfirmedAttempt}
use movie_reservation_servic.Memory.Store.{Store}
use movie_reservation_servic.Memory.Settle.{
  find_conflict, first_conflict, confirm_claimed, reject_claimed,
}
use movie_reservation_servic.Processor.World
use movie_reservation_servic.Processor.World.{World, in_store, Ports, Options, ProcessingResult}
use movie_reservation_servic.Processor.Steps.{
  now, next_reservation_id, confirm_outcome, reject_for_seat_conflict, confirm_work_item,
  throw_if_blocked, settle_work_item, finish_reject, finish_confirm, rejected_attempt,
  reservation_input, confirmed_attempt, by_conflict,
}
use movie_reservation_servic.Processor.Triples.{
  Post, Anything, Triple, Triple-quiet, Triple-store, Triple-given, Triple-bind,
}
use movie_reservation_servic.Processor.Stored.{
  IsRejected, IsFor, IsSettled, IsAttemptAt, IsStanding,
}
use movie_reservation_servic.Processor.Settled.{reject_claimed-Post, confirm_claimed-Post}
use movie_reservation_servic.Processor.Reported.{IsReported, Reports, after_quiet, report}

module _ (ports : Ports) (options : Options) (started_at : JsString)
    (c : ClaimedReservationRequest) where
  -- The reservation of the conflict that was found
  abbrev Found : Reservation → Store → Type 0
  Found conflict s =
      first_conflict c.reservation_request.screening_id c.reservation_request.seat_ids
        (values s.reservations)
      ≡ some conflict

  finish_reject-Reports :
      (conflict : Reservation) (completed_at : JsString)
      → Triple
          (IsStanding c)
          (Found conflict)
          (finish_reject ports options c
            (rejected_attempt ports options c started_at completed_at conflict.id))
          (IsReported ports options started_at)
  finish_reject-Reports conflict completed_at =
      let a = rejected_attempt ports options c started_at completed_at conflict.id in
      Triple-bind (IsStanding c) (Found conflict) (IsRejected a)
        (IsReported ports options started_at) (in_store (reject_claimed c a)) _
        (Triple-store (IsStanding c) (Found conflict) (reject_claimed c a) _
          (λ s h found. reject_claimed-Post c s h a conflict (refl, refl) found refl))
        (λ r. report ports options started_at c (World.ProcessingResult.rejected a r))

  reject-Reports :
      (conflict : Reservation)
      → Triple
          (IsStanding c)
          (Found conflict)
          (reject_for_seat_conflict ports options c started_at conflict.id)
          (IsReported ports options started_at)
  unfolding reject_for_seat_conflict
  reject-Reports conflict =
      Triple-bind (IsStanding c) (Found conflict) (λ t. Found conflict)
        (IsReported ports options started_at) (now ports options) _
        (Triple-quiet (IsStanding c) (Found conflict) _ (λ w. refl))
        (finish_reject-Reports conflict)

  -- The failure policy lets the request pass.
  abbrev Allowed : Type 0
  Allowed = ports.should_fail c.reservation_request.id ≡ false

  confirmed-Reports :
      Allowed
      → (reservation : Reservation) (a : ConfirmedAttempt) → IsAttemptAt c a.base
      → (result : ConfirmResult)
      → Triple
          (IsStanding c)
          (IsSettled a reservation result)
          (pure (confirm_outcome ports options a reservation result))
          (IsReported ports options started_at)
  confirmed-Reports allowed reservation a at (Work.ConfirmResult.confirmed r) = record {
    at = λ w h p. (h, (p, ap ports.should_fail (sym p.0.1.about ∙ at.0) ∙ allowed));
  }
  confirmed-Reports allowed reservation a at (Work.ConfirmResult.rejected r b) =
      report ports options started_at c (World.ProcessingResult.rejected b r)

  finish_confirm-Reports :
      Allowed
      → (reservation : Reservation) (a : ConfirmedAttempt) → IsAttemptAt c a.base
      → IsFor reservation c.reservation_request
      → a.reservation_id ≡ reservation.id
      → Reports ports options started_at c (finish_confirm ports options c reservation a)
  finish_confirm-Reports allowed reservation a at booked names =
      Triple-bind (IsStanding c) Anything (IsSettled a reservation)
        (IsReported ports options started_at) (in_store (confirm_claimed c reservation a)) _
        (Triple-store (IsStanding c) Anything (confirm_claimed c reservation a) _
          (λ s h u. confirm_claimed-Post c s h reservation a at booked names))
        (confirmed-Reports allowed reservation a at)

  create_reservation-Triple :
      (input : Reservation)
      → IsFor input c.reservation_request
      → Triple
          (IsStanding c)
          Anything
          (lift (create_reservation input))
          (λ reservation s. IsFor reservation c.reservation_request)
  create_reservation-Triple input asked = record {
    at = λ w h u. elim (Result-cases (create_reservation input)) [
      | inl (reservation, e) ↦
          let made = ((create_reservation_iff input reservation).0 e) in
          let (some_seat, distinct, same) = made in
          subst (λ x. Post (IsStanding c) (λ q s. IsFor q c.reservation_request) x w.store) (sym e)
            (h, subst (λ q. IsFor q c.reservation_request) (sym same) asked)
      | inr (x, e) ↦
          subst (λ y. Post (IsStanding c) (λ q s. IsFor q c.reservation_request) y w.store) (sym e)
            h
    ];
  }

  confirm-Reports :
      Allowed → Reports ports options started_at c (confirm_work_item ports options c started_at)
  unfolding confirm_work_item
  confirm-Reports allowed =
      after_quiet ports options started_at c (next_reservation_id ports options) _ (λ w. refl)
        λ id.
          after_quiet ports options started_at c (now ports options) _ (λ w. refl)
            λ confirmed_at.
              Triple-bind (IsStanding c) Anything (λ q s. IsFor q c.reservation_request)
                (IsReported ports options started_at)
                (lift (create_reservation (reservation_input ports options c id confirmed_at))) _
                (create_reservation-Triple (reservation_input ports options c id confirmed_at)
                  (record {
                    reservation_request_id = refl;
                    movie_provider_id = refl;
                    screening_id = refl;
                    seat_ids = refl;
                    reserved_by_user_id = refl;
                  }))
                λ reservation.
                  Triple-given (IsStanding c) (IsFor reservation c.reservation_request) _
                    (IsReported ports options started_at)
                    λ booked.
                      after_quiet ports options started_at c (now ports options) _ (λ w. refl)
                        λ completed_at.
                          finish_confirm-Reports allowed reservation
                            (confirmed_attempt ports options c started_at completed_at reservation)
                            (refl, refl) booked refl

  -- Past the failure policy, the request is allowed; the store is as it was either way.
  throw_if_blocked-Triple :
      Triple (IsStanding c) Anything (throw_if_blocked ports options c) (λ u s. Allowed)
  unfolding throw_if_blocked
  throw_if_blocked-Triple = record {
    at = λ w h u. elim (Bool-cases (ports.should_fail c.reservation_request.id)) [
      | inl blocked ↦ rw blocked h
      | inr allowed ↦ rw allowed (h, refl)
    ];
  }

  by_conflict-Reports :
      (conflict : Option Reservation)
      → Triple
          (IsStanding c)
          (λ s.
            first_conflict c.reservation_request.screening_id c.reservation_request.seat_ids
              (values s.reservations)
            ≡ conflict)
          (by_conflict ports options c started_at conflict)
          (IsReported ports options started_at)
  by_conflict-Reports none = record {
    at = λ w h p.
        (Triple-bind (IsStanding c) Anything (λ u s. Allowed) (IsReported ports options started_at)
            (throw_if_blocked ports options c) (λ u. confirm_work_item ports options c started_at)
            throw_if_blocked-Triple
            (λ u.
              Triple-given (IsStanding c) Allowed _ (IsReported ports options started_at)
                confirm-Reports)).at
          w h tt;
  }
  by_conflict-Reports (some conflict) = reject-Reports conflict

  pub settle-Reports :
      Reports ports options started_at c (settle_work_item ports options c started_at)
  unfolding settle_work_item find_conflict
  settle-Reports =
      Triple-bind (IsStanding c) Anything
        (λ conflict s.
          first_conflict c.reservation_request.screening_id c.reservation_request.seat_ids
            (values s.reservations)
          ≡ conflict)
        (IsReported ports options started_at)
        (in_store (find_conflict c.reservation_request.screening_id c.reservation_request.seat_ids))
        _ (Triple-store (IsStanding c) Anything _ _ (λ s h u. (h, refl))) by_conflict-Reports
