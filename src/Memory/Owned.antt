-- ===== src/Memory/Owned.antt =====
-- Who owns a claim, and what the operations that end one return and write, for the owner and for
-- anybody else.
use movie_reservation_servic.Prelude.{
  ◌+◌, ◌≡◌, refl, sym, ap, ◌∙◌, true, false, Option, none, some, List, [], ◌∷◌, ◌++◌, JsString, ◌↔◌,
  ===_iff, is_text, Result, ok, err, arith, inl, inr, Option-cases, ◌⊎◌,
}
use movie_reservation_servic.Prelude.JsMap.{JsMap, get, set, has, get-set_self, set-set, values}
use movie_reservation_servic.Errors.{Error, reservation_already_exists}
use movie_reservation_servic.Domain.Request.{
  ReservationRequestStatus, requested, processing, confirmed, rejected, failed, ReservationRequest,
}
use movie_reservation_servic.Domain.Reservation.{Reservation}
use movie_reservation_servic.Work
use movie_reservation_servic.Work.{
  ClaimedReservationRequest, RejectedAttempt, FailedAttempt, ConfirmedAttempt, ProcessingAttempt,
  ConfirmResult,
}
use movie_reservation_servic.Memory.Store.{WorkMetadata, Store, base_of, or_empty}
use movie_reservation_servic.Memory.Metadata.{unclaimed, holds_claim}
use movie_reservation_servic.Memory.Settle.{
  require_claimed, reject_claimed, release_claimed, fail_claimed, first_conflict, confirm_claimed,
  conflict_attempt,
}

-- The work item `c` is the current claim of the request `r`, whose metadata is `m`.
pub record IsOwned (s : Store) (c : ClaimedReservationRequest) (r : ReservationRequest)
    (m : WorkMetadata) : Type 0 where
  pub stored : get s.requests c.reservation_request.id ≡ some r
  pub tracked : get s.work_metadata c.reservation_request.id ≡ some m
  pub in_order : m.sequence ≡ c.sequence
  pub claimed_by : m.claimed_by ≡ some c.claimed_by
  pub claim_token : m.claim_token ≡ some c.claim_token
  pub status : r.status ≡ processing

pub is_text_iff : (o : Option JsString) (t : JsString) → (is_text o t ≡ true) ↔ (o ≡ some t)
is_text_iff none t = ground arith
is_text_iff (some s) t = ground (arith, ===_iff s t)

pub holds_claim_iff :
    (m : WorkMetadata) (c : ClaimedReservationRequest)
    → (holds_claim m c ≡ true)
      ↔ ((m.claimed_by ≡ some c.claimed_by) × (m.claim_token ≡ some c.claim_token))
holds_claim_iff m c =
    ground (arith, is_text_iff m.claimed_by c.claimed_by, is_text_iff m.claim_token c.claim_token)

module _ (c : ClaimedReservationRequest) (s : Store) where
  -- The check reads the store only.
  pub require_claimed-state : (require_claimed c s).1 ≡ s
  unfolding require_claimed
  require_claimed-state = ground arith

  pub require_claimed_of_IsOwned :
      (r : ReservationRequest) (m : WorkMetadata)
      → IsOwned s c r m
      → require_claimed c s ≡ (ok r, s)
  unfolding require_claimed
  require_claimed_of_IsOwned r m o = ground (arith, holds_claim_iff m c, o.stored, o.tracked)

  pub require_claimed-eq-ok :
      (r : ReservationRequest)
      → (require_claimed c s).0 ≡ ok r
      → (m : WorkMetadata) × IsOwned s c r m
  unfolding require_claimed
  require_claimed-eq-ok r h = elim (Option-cases (get s.work_metadata c.reservation_request.id)) [
    | inl lost ↦ absurd (ground arith)
    | inr (m, e) ↦ (
      m,
      record {
        stored = ground arith;
        tracked = e;
        in_order = ground arith;
        claimed_by = ground (arith, holds_claim_iff m c);
        claim_token = ground (arith, holds_claim_iff m c);
        status = ground arith;
      },
    )
  ]

  -- The check passes for the owner, or it throws.
  pub require_claimed-cases :
      ((r : ReservationRequest) × (m : WorkMetadata) × IsOwned s c r m)
      ⊎ ((e : Error) × (require_claimed c s ≡ (err e, s)))
  require_claimed-cases = result (require_claimed c s) refl
    where
      result :
          (x : Result ReservationRequest × Store)
          → require_claimed c s ≡ x
          → ((r : ReservationRequest) × (m : WorkMetadata) × IsOwned s c r m)
            ⊎ ((e : Error) × (require_claimed c s ≡ (err e, s)))
      result (ok r, t) e = let (m, o) = require_claimed-eq-ok r (ap (λ y. y.0) e) in inl (r, m, o)
      result (err x, t) e =
          inr (x, e ∙ ap (λ y. (err x, y)) (sym (ap (λ y. y.1) e) ∙ require_claimed-state))

abbrev pub attempts_with :
    JsMap (List ProcessingAttempt) → ProcessingAttempt → JsMap (List ProcessingAttempt)
attempts_with attempts a =
    set attempts (base_of a).reservation_request_id
      (or_empty (get attempts (base_of a).reservation_request_id) ++ a ∷ [])

-- The store after the owner's request has become `r'`, its metadata `m'`, and an attempt was noted.
abbrev pub settled : Store → ReservationRequest → WorkMetadata → ProcessingAttempt → Store
settled s r' m' a = record s {
  requests = set s.requests r'.id r';
  work_metadata = set s.work_metadata r'.id m';
  processing_attempts = attempts_with s.processing_attempts a;
}

abbrev pub with_status : ReservationRequest → ReservationRequestStatus → ReservationRequest
with_status r status = record r { status = status }

abbrev pub more_failures : WorkMetadata → WorkMetadata
more_failures m = record m { transient_failure_count = m.transient_failure_count + 1 }

-- One more transient failure, and no owner.
abbrev pub failed_once : WorkMetadata → WorkMetadata
failed_once m = unclaimed (more_failures m)

module _ (c : ClaimedReservationRequest) (s : Store) (r : ReservationRequest) (m : WorkMetadata)
    (o : IsOwned s c r m) (named : r.id ≡ c.reservation_request.id) where
  tracked_by_id : get s.work_metadata r.id ≡ some m
  tracked_by_id = rw named o.tracked

  pub reject_claimed_lem :
      (a : RejectedAttempt)
      → reject_claimed c a s ≡ (
        ok (with_status r rejected),
        settled s (with_status r rejected) (unclaimed m) (Work.ProcessingAttempt.rejected a),
      )
  unfolding reject_claimed
  reject_claimed_lem a =
      ground (arith, require_claimed_of_IsOwned c s r m o, tracked_by_id, o.status)

  pub fail_claimed_lem :
      (a : FailedAttempt)
      → fail_claimed c a s ≡ (
        ok (with_status r failed),
        settled s (with_status r failed) (failed_once m) (Work.ProcessingAttempt.failed a),
      )
  unfolding fail_claimed
  fail_claimed_lem a = ground (
    arith,
    require_claimed_of_IsOwned c s r m o,
    tracked_by_id,
    o.status,
    get-set_self s.work_metadata r.id (more_failures m),
    set-set s.work_metadata r.id (more_failures m) (failed_once m),
  )

  pub release_claimed_lem :
      (a : FailedAttempt)
      → release_claimed c a s ≡ (
        ok (with_status r requested),
        settled s (with_status r requested) (failed_once m) (Work.ProcessingAttempt.failed a),
      )
  unfolding release_claimed
  release_claimed_lem a = ground (
    arith,
    require_claimed_of_IsOwned c s r m o,
    tracked_by_id,
    o.status,
    get-set_self s.work_metadata r.id (more_failures m),
    set-set s.work_metadata r.id (more_failures m) (failed_once m),
  )

  module _ (reservation : Reservation) (a : ConfirmedAttempt) where
    pub confirm_claimed_known :
        has s.reservations reservation.id ≡ true
        → confirm_claimed c reservation a s ≡ (err (reservation_already_exists reservation.id), s)
    unfolding confirm_claimed
    confirm_claimed_known known = ground (arith, require_claimed_of_IsOwned c s r m o)

    pub confirm_claimed_free :
        has s.reservations reservation.id ≡ false
        → first_conflict reservation.screening_id reservation.seat_ids (values s.reservations)
          ≡ none
        → confirm_claimed c reservation a s ≡ (
          ok (Work.ConfirmResult.confirmed (with_status r confirmed)),
          settled
              (record s { reservations = set s.reservations reservation.id reservation })
              (with_status r confirmed)
              (unclaimed m)
              (Work.ProcessingAttempt.confirmed a),
        )
    unfolding confirm_claimed
    confirm_claimed_free new free =
        ground (arith, require_claimed_of_IsOwned c s r m o, tracked_by_id, o.status)

    pub confirm_claimed_taken :
        (conflict : Reservation)
        → has s.reservations reservation.id ≡ false
        → first_conflict reservation.screening_id reservation.seat_ids (values s.reservations)
          ≡ some conflict
        → confirm_claimed c reservation a s ≡ (
          ok (
              Work.ConfirmResult.rejected
                (with_status r rejected)
                (conflict_attempt r c a.base conflict)),
          settled s
              (with_status r rejected)
              (unclaimed m)
              (Work.ProcessingAttempt.rejected (conflict_attempt r c a.base conflict)),
        )
    unfolding confirm_claimed
    confirm_claimed_taken conflict new taken =
        ground (arith, require_claimed_of_IsOwned c s r m o, tracked_by_id, o.status)

module _ (c : ClaimedReservationRequest) (s : Store) (e : Error)
    (lost : require_claimed c s ≡ (err e, s)) where
  pub reject_claimed_lost : (a : RejectedAttempt) → reject_claimed c a s ≡ (err e, s)
  unfolding reject_claimed
  reject_claimed_lost a = ground arith

  pub fail_claimed_lost : (a : FailedAttempt) → fail_claimed c a s ≡ (err e, s)
  unfolding fail_claimed
  fail_claimed_lost a = ground arith

  pub release_claimed_lost : (a : FailedAttempt) → release_claimed c a s ≡ (err e, s)
  unfolding release_claimed
  release_claimed_lost a = ground arith

  pub confirm_claimed_lost :
      (reservation : Reservation) (a : ConfirmedAttempt)
      → confirm_claimed c reservation a s ≡ (err e, s)
  unfolding confirm_claimed
  confirm_claimed_lost reservation a = ground arith
