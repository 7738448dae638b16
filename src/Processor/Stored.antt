-- ===== src/Processor/Stored.antt =====
-- What the store holds of a request whose processing has ended.
use movie_reservation_servic.Prelude.{
  ℕ, ◌≡◌, sym, ap, ◌∙◌, subst, refl, arith, none, some, List, [], ◌∷◌, ◌++◌,
}
use mathlib.Core.Option.{some-injective}
use movie_reservation_servic.Prelude.JsMap.{get, set, values, get-set_self}
use movie_reservation_servic.Domain.Request.{
  ReservationRequestStatus, confirmed, rejected, ReservationRequest,
}
use movie_reservation_servic.Domain.Reservation.{Reservation}
use movie_reservation_servic.Work
use movie_reservation_servic.Work.{
  ClaimedReservationRequest, AttemptBase, ConfirmedAttempt, RejectedAttempt, ProcessingAttempt,
  ConfirmResult,
}
use movie_reservation_servic.Memory.Store.{Store, WorkMetadata, base_of, or_empty}
use movie_reservation_servic.Memory.Metadata.{unclaimed}
use movie_reservation_servic.Memory.Invariant.{IsWellFormed}
use movie_reservation_servic.Memory.Settle.{first_conflict}
use movie_reservation_servic.Memory.Reads.{find_attempts_by_request_id}
use movie_reservation_servic.Memory.Owned.{IsOwned, settled}

-- The store holds this very request, with this status, nobody's claim, and this many transient
-- failures, and the attempt is the last one recorded for it, under its number.
pub record IsEnded (s : Store) (r : ReservationRequest) (status : ReservationRequestStatus)
    (a : ProcessingAttempt) (transient_failures : ℕ) : Type 0 where
  pub stored : get s.requests r.id ≡ some r
  pub ended : r.status ≡ status
  pub m : WorkMetadata
  pub tracked : get s.work_metadata r.id ≡ some m
  pub claimed_by : m.claimed_by ≡ none
  pub claim_token : m.claim_token ≡ none
  pub counted : m.transient_failure_count ≡ transient_failures
  pub about : (base_of a).reservation_request_id ≡ r.id
  pub numbered : (base_of a).sequence ≡ m.sequence
  pub before : List ProcessingAttempt
  pub recorded : find_attempts_by_request_id r.id s ≡ before ++ a ∷ []

-- The request is REJECTED, and the attempt names the first reservation of its screening that holds
-- one of its seats.
abbrev pub IsRejected : RejectedAttempt → ReservationRequest → Store → Type 0
IsRejected a r s =
    ((n : ℕ) × IsEnded s r rejected (Work.ProcessingAttempt.rejected a) n)
    × ((conflict : Reservation) × (first_conflict r.screening_id r.seat_ids (values s.reservations)
          ≡ some conflict)
        × (a.conflicting_reservation_id ≡ conflict.id))

-- The reservation is the one that the request asks for.
pub record IsFor (reservation : Reservation) (r : ReservationRequest) : Type 0 where
  pub reservation_request_id : reservation.reservation_request_id ≡ r.id
  pub movie_provider_id : reservation.movie_provider_id ≡ r.movie_provider_id
  pub screening_id : reservation.screening_id ≡ r.screening_id
  pub seat_ids : reservation.seat_ids ≡ r.seat_ids
  pub reserved_by_user_id : reservation.reserved_by_user_id ≡ r.requested_by_user_id

-- The request is CONFIRMED, and its reservation is stored, which the attempt names.
abbrev pub IsConfirmed : ConfirmedAttempt → ReservationRequest → Reservation → Store → Type 0
IsConfirmed a r reservation s =
    ((n : ℕ) × IsEnded s r confirmed (Work.ProcessingAttempt.confirmed a) n)
    × (get s.reservations reservation.id ≡ some reservation)
    × IsFor reservation r
    × (a.reservation_id ≡ reservation.id)

-- What a confirmation answers: a booked reservation, or a rejected request.
abbrev pub IsSettled : ConfirmedAttempt → Reservation → ConfirmResult → Store → Type 0
IsSettled a reservation (Work.ConfirmResult.confirmed r) s = IsConfirmed a r reservation s
IsSettled a reservation (Work.ConfirmResult.rejected r b) s = IsRejected b r s

-- The attempt is one at this work item.
abbrev pub IsAttemptAt : ClaimedReservationRequest → AttemptBase → Type 0
IsAttemptAt c base =
    (base.reservation_request_id ≡ c.reservation_request.id) × (base.sequence ≡ c.sequence)

-- The store is well formed, and while the work item is owned, its request and its count of
-- transient failures are as they were handed out.
pub record IsStanding (c : ClaimedReservationRequest) (s : Store) : Type 0 where
  pub well : IsWellFormed s
  pub as_claimed :
      (r : ReservationRequest) (m : WorkMetadata)
      → IsOwned s c r m
      → (r ≡ c.reservation_request) × (m.transient_failure_count ≡ c.transient_failure_count)

module _ (s : Store) (r : ReservationRequest) (m : WorkMetadata) (a : ProcessingAttempt)
    (about : (base_of a).reservation_request_id ≡ r.id) where
  -- A settlement that notes an attempt at the request ends it.
  pub settled-IsEnded :
      (base_of a).sequence ≡ m.sequence
      → IsEnded (settled s r (unclaimed m) a) r r.status a m.transient_failure_count
  unfolding find_attempts_by_request_id
  settled-IsEnded numbered =
      let known = or_empty (get s.processing_attempts (base_of a).reservation_request_id) in
      record {
        stored = get-set_self s.requests r.id r;
        ended = refl;
        m = unclaimed m;
        tracked = get-set_self s.work_metadata r.id (unclaimed m);
        claimed_by = refl;
        claim_token = refl;
        counted = refl;
        about = about;
        numbered = numbered;
        before = known;
        recorded = ap or_empty (
            subst
              (λ i.
                get (set s.processing_attempts (base_of a).reservation_request_id (known ++ a ∷ []))
                  i
                ≡ some (known ++ a ∷ []))
              about
              (get-set_self s.processing_attempts (base_of a).reservation_request_id
                (known ++ a ∷ [])));
      }

  -- Nobody owns the work item after that.
  pub settled-IsStanding :
      (c : ClaimedReservationRequest)
      → r.id ≡ c.reservation_request.id
      → IsWellFormed (settled s r (unclaimed m) a)
      → IsStanding c (settled s r (unclaimed m) a)
  settled-IsStanding c named h = record {
    well = h;
    as_claimed = λ q n o.
        let same : unclaimed m ≡ n = some-injective (unclaimed m) n (
          sym (get-set_self s.work_metadata r.id (unclaimed m))
          ∙ ap (get (set s.work_metadata r.id (unclaimed m))) named
          ∙ o.tracked) in
        absurd (ground (arith, ap (λ x. x.claimed_by) same ∙ o.claimed_by));
  }
