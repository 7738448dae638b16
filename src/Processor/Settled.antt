-- ===== src/Processor/Settled.antt =====
-- The calls of the work repository that end a claim, and the store: what they return is what it
-- holds.
use movie_reservation_servic.Prelude.{
  ◌+◌, ◌≡◌, sym, ap, ◌∙◌, subst, refl, Option-cases, Bool-cases, inl, inr, some,
}
use movie_reservation_servic.Prelude.JsMap.{has, set, values, get-set_self}
use movie_reservation_servic.Domain.Request.{
  ReservationRequestStatus, requested, confirmed, rejected, failed, ReservationRequest,
}
use movie_reservation_servic.Domain.Reservation.{Reservation}
use movie_reservation_servic.Work
use movie_reservation_servic.Work.{
  ClaimedReservationRequest, ConfirmedAttempt, RejectedAttempt, FailedAttempt, ConfirmResult,
}
use movie_reservation_servic.Memory.Store.{Store, WorkMetadata}
use movie_reservation_servic.Memory.Invariant.{IsWellFormed}
use movie_reservation_servic.Memory.Settle.{
  first_conflict, reject_claimed, fail_claimed, release_claimed, confirm_claimed, conflict_attempt,
}
use movie_reservation_servic.Memory.Owned.{
  IsOwned, with_status, more_failures, require_claimed-cases, reject_claimed_lem, fail_claimed_lem,
  release_claimed_lem, confirm_claimed_known, confirm_claimed_free, confirm_claimed_taken,
  reject_claimed_lost, fail_claimed_lost, release_claimed_lost, confirm_claimed_lost,
}
use movie_reservation_servic.Memory.Runs.{
  reject_claimed-Effect, fail_claimed-Effect, release_claimed-Effect, confirm_claimed-Effect,
}
use movie_reservation_servic.Memory.Lifecycle.{Effect-IsWellFormed}
use movie_reservation_servic.Processor.Triples.{Post}
use movie_reservation_servic.Processor.Stored.{
  IsEnded, IsRejected, IsFor, IsSettled, IsAttemptAt, IsStanding, settled-IsEnded,
  settled-IsStanding,
}

IsFor-with_status :
    (reservation : Reservation) (r : ReservationRequest) (status : ReservationRequestStatus)
    → IsFor reservation r
    → IsFor reservation (with_status r status)
IsFor-with_status reservation r status h = record {
  reservation_request_id = h.reservation_request_id;
  movie_provider_id = h.movie_provider_id;
  screening_id = h.screening_id;
  seat_ids = h.seat_ids;
  reserved_by_user_id = h.reserved_by_user_id;
}

module _ (c : ClaimedReservationRequest) (s : Store) (h : IsStanding c s) where
  named :
      (r : ReservationRequest) (m : WorkMetadata)
      → IsOwned s c r m
      → r.id ≡ c.reservation_request.id
  named r m o = h.well.keyed c.reservation_request.id r o.stored

  pub reject_claimed-Post :
      (a : RejectedAttempt) (conflict : Reservation)
      → IsAttemptAt c a.base
      → first_conflict c.reservation_request.screening_id c.reservation_request.seat_ids
          (values s.reservations)
        ≡ some conflict
      → a.conflicting_reservation_id ≡ conflict.id
      → Post (IsStanding c) (IsRejected a) (reject_claimed c a s).0 (reject_claimed c a s).1
  reject_claimed-Post a conflict at found names =
      let h' = Effect-IsWellFormed (reject_claimed-Effect s h.well c a) h.well in
      elim (require_claimed-cases c s) [
        | inl (r, m, o) ↦
            let e = reject_claimed_lem c s r m o (named r m o) a in
            let r' = with_status r rejected in
            let attempt = Work.ProcessingAttempt.rejected a in
            let about : a.base.reservation_request_id ≡ r'.id = at.0 ∙ sym (named r m o) in
            let same = (h.as_claimed r m o).0 in
            subst (λ x. Post (IsStanding c) (IsRejected a) x.0 x.1) (sym e)
              (
                settled-IsStanding s r' m attempt about c (named r m o)
                    (subst (λ x. IsWellFormed x.1) e h'),
                (
                  (
                    m.transient_failure_count,
                    settled-IsEnded s r' m attempt about (at.1 ∙ sym o.in_order),
                  ),
                  (
                    conflict,
                    subst
                        (λ (q : ReservationRequest).
                          first_conflict q.screening_id q.seat_ids (values s.reservations)
                          ≡ some conflict)
                        (sym same) found,
                    names,
                  ),
                ),
              )
        | inr (x, lost) ↦
            subst (λ y. Post (IsStanding c) (IsRejected a) y.0 y.1)
              (sym (reject_claimed_lost c s x lost a)) h
      ]

  pub fail_claimed-Post :
      (a : FailedAttempt)
      → IsAttemptAt c a.base
      → Post
          (IsStanding c)
          (λ r s'.
            IsEnded s' r failed (Work.ProcessingAttempt.failed a) (c.transient_failure_count + 1))
          (fail_claimed c a s).0
          (fail_claimed c a s).1
  fail_claimed-Post a at =
      let h' = Effect-IsWellFormed (fail_claimed-Effect s h.well c a) h.well in
      let attempt = Work.ProcessingAttempt.failed a in
      let Q = λ (r : ReservationRequest) (s' : Store).
        IsEnded s' r failed attempt (c.transient_failure_count + 1) in
      elim (require_claimed-cases c s) [
        | inl (r, m, o) ↦
            let e = fail_claimed_lem c s r m o (named r m o) a in
            let r' = with_status r failed in
            let m' = more_failures m in
            let about : a.base.reservation_request_id ≡ r'.id = at.0 ∙ sym (named r m o) in
            subst (λ x. Post (IsStanding c) Q x.0 x.1) (sym e)
              (
                settled-IsStanding s r' m' attempt about c (named r m o)
                    (subst (λ x. IsWellFormed x.1) e h'),
                subst (IsEnded _ r' failed attempt) (ap (λ k. k + 1) (h.as_claimed r m o).1)
                    (settled-IsEnded s r' m' attempt about (at.1 ∙ sym o.in_order)),
              )
        | inr (x, lost) ↦
            subst (λ y. Post (IsStanding c) Q y.0 y.1) (sym (fail_claimed_lost c s x lost a)) h
      ]

  pub release_claimed-Post :
      (a : FailedAttempt)
      → IsAttemptAt c a.base
      → Post
          (IsStanding c)
          (λ r s'.
            IsEnded s' r requested
              (Work.ProcessingAttempt.failed a)
              (c.transient_failure_count + 1))
          (release_claimed c a s).0
          (release_claimed c a s).1
  release_claimed-Post a at =
      let h' = Effect-IsWellFormed (release_claimed-Effect s h.well c a) h.well in
      let attempt = Work.ProcessingAttempt.failed a in
      let Q = λ (r : ReservationRequest) (s' : Store).
        IsEnded s' r requested attempt (c.transient_failure_count + 1) in
      elim (require_claimed-cases c s) [
        | inl (r, m, o) ↦
            let e = release_claimed_lem c s r m o (named r m o) a in
            let r' = with_status r requested in
            let m' = more_failures m in
            let about : a.base.reservation_request_id ≡ r'.id = at.0 ∙ sym (named r m o) in
            subst (λ x. Post (IsStanding c) Q x.0 x.1) (sym e)
              (
                settled-IsStanding s r' m' attempt about c (named r m o)
                    (subst (λ x. IsWellFormed x.1) e h'),
                subst (IsEnded _ r' requested attempt) (ap (λ k. k + 1) (h.as_claimed r m o).1)
                    (settled-IsEnded s r' m' attempt about (at.1 ∙ sym o.in_order)),
              )
        | inr (x, lost) ↦
            subst (λ y. Post (IsStanding c) Q y.0 y.1) (sym (release_claimed_lost c s x lost a)) h
      ]

  module _ (reservation : Reservation) (a : ConfirmedAttempt) (at : IsAttemptAt c a.base)
      (booked : IsFor reservation c.reservation_request)
      (names : a.reservation_id ≡ reservation.id) where
    abbrev Q : ConfirmResult → Store → Type 0
    Q = IsSettled a reservation

    confirm_owned-Post :
        (r : ReservationRequest) (m : WorkMetadata)
        → IsOwned s c r m
        → Post
            (IsStanding c)
            Q
            (confirm_claimed c reservation a s).0
            (confirm_claimed c reservation a s).1
    confirm_owned-Post r m o =
        let h' = Effect-IsWellFormed (confirm_claimed-Effect s h.well c reservation a) h.well in
        let same = (h.as_claimed r m o).0 in
        elim (Bool-cases (has s.reservations reservation.id)) [
          | inl known ↦
              subst (λ x. Post (IsStanding c) Q x.0 x.1)
                (sym (confirm_claimed_known c s r m o (named r m o) reservation a known)) h
          | inr new ↦
              elim (Option-cases (
                first_conflict reservation.screening_id reservation.seat_ids
                  (values s.reservations))) [
                    | inl free ↦
                        let e =
                          confirm_claimed_free c s r m o (named r m o) reservation a new free in
                        let r' = with_status r confirmed in
                        let s' : Store = record s {
                          reservations = set s.reservations reservation.id reservation;
                        } in
                        let attempt = Work.ProcessingAttempt.confirmed a in
                        let about : a.base.reservation_request_id ≡ r'.id =
                          at.0 ∙ sym (named r m o) in
                        subst (λ x. Post (IsStanding c) Q x.0 x.1) (sym e)
                          (
                            settled-IsStanding s' r' m attempt about c (named r m o)
                                (subst (λ x. IsWellFormed x.1) e h'),
                            (
                              (
                                m.transient_failure_count,
                                settled-IsEnded s' r' m attempt about (at.1 ∙ sym o.in_order),
                              ),
                              get-set_self s.reservations reservation.id reservation,
                              IsFor-with_status reservation r confirmed
                                  (subst (IsFor reservation) (sym same) booked),
                              names,
                            ),
                          )
                    | inr (conflict, taken) ↦
                        let e =
                          confirm_claimed_taken c s r m o (named r m o) reservation a conflict new
                            taken in
                        let r' = with_status r rejected in
                        let b = conflict_attempt r c a.base conflict in
                        let attempt = Work.ProcessingAttempt.rejected b in
                        let asked = subst (IsFor reservation) (sym same) booked in
                        subst (λ x. Post (IsStanding c) Q x.0 x.1) (sym e)
                          (
                            settled-IsStanding s r' m attempt refl c (named r m o)
                                (subst (λ x. IsWellFormed x.1) e h'),
                            (
                              (
                                m.transient_failure_count,
                                settled-IsEnded s r' m attempt refl (sym o.in_order),
                              ),
                              (conflict, rw (← asked.screening_id, ← asked.seat_ids) taken, refl),
                            ),
                          )
                  ]
        ]

    pub confirm_claimed-Post :
        Post
          (IsStanding c)
          Q
          (confirm_claimed c reservation a s).0
          (confirm_claimed c reservation a s).1
    confirm_claimed-Post = elim (require_claimed-cases c s) [
      | inl (r, m, o) ↦ confirm_owned-Post r m o
      | inr (e, lost) ↦
          subst (λ x. Post (IsStanding c) Q x.0 x.1)
            (sym (confirm_claimed_lost c s e lost reservation a)) h
    ]
