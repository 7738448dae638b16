-- ===== src/Tests/Database.antt =====
-- The theorems on src/infrastructure/repositories/postgres at concrete tables.
use movie_reservation_servic.Prelude.{
  ◌≡◌, ◌≢◌, refl, subst, none, some, [], ◌∷◌, text, ok, ◌===◌, arith, inl, inr,
}
use movie_reservation_servic.Domain.Ids.{create_uuid_id, create_non_empty_id}
use movie_reservation_servic.Domain.Request.{processing, confirmed}
use movie_reservation_servic.Domain.Reservation.{Reservation}
use movie_reservation_servic.Work.{
  ClaimInput, ClaimedReservationRequest, ConfirmedAttempt, RejectedAttempt, FailedAttempt,
  unexpected_error, ConfirmResult, AttemptBase,
}
use movie_reservation_servic.Postgres.Tables.{Tables}
use movie_reservation_servic.Postgres.State.{reject_claimed, release_for_retry, fail_claimed}
use movie_reservation_servic.Postgres.Booking.{confirm_claimed}
use movie_reservation_servic.Postgres.Requests.{save_request}
use movie_reservation_servic.Postgres.Claimer.{claim_next}
use movie_reservation_servic.Postgres.Conflict
use movie_reservation_servic.Postgres.Conflict.{confirm_claimed-Ends}
use movie_reservation_servic.Postgres.Claims
use movie_reservation_servic.Postgres.Claims.{claim_next-Ends}
use movie_reservation_servic.Postgres.Unique.{IsUnique, confirm_claimed-IsUnique}
use movie_reservation_servic.Postgres.Leases.{HasCanonicalIds, IsRefused, stale_claim-IsRefused}
use movie_reservation_servic.Tests.Fixtures.{dates}
use movie_reservation_servic.Tests.Postgres.{
  engine, uuid, request, one_request, input, one_claim, item,
}

abbrev pub base : AttemptBase
base = record {
  reservation_request_id = uuid "e1";
  sequence = 1;
  started_at = 11 ∷ [];
  completed_at = 12 ∷ [];
}

abbrev confirmation : ConfirmedAttempt
confirmation = record { base = base; reservation_id = uuid "f0" }

abbrev pub rejection : RejectedAttempt
rejection = record { base = base; conflicting_reservation_id = uuid "f0" }

abbrev pub failure : FailedAttempt
failure = record { base = base; reason = unexpected_error }

abbrev reservation : Reservation
reservation = record {
  id = uuid "f0";
  movie_provider_id = uuid "b1";
  reservation_request_id = uuid "e1";
  screening_id = uuid "c1";
  seat_ids = uuid "d1" ∷ [];
  reserved_by_user_id = text "ann";
  confirmed_at = 12 ∷ [];
}

confirms :
    (confirm_claimed engine dates item reservation confirmation one_claim).0
    ≡ ok (ConfirmResult.confirmed (record request { status = confirmed }))
unfolding save_request claim_next confirm_claimed ◌===◌ create_uuid_id create_non_empty_id
confirms = refl

confirm_claimed-Ends_example :
    Conflict.Ends engine dates item reservation confirmation
      (confirm_claimed engine dates item reservation confirmation one_claim).0
      one_claim
      (confirm_claimed engine dates item reservation confirmation one_claim).1
confirm_claimed-Ends_example =
    confirm_claimed-Ends engine dates item reservation confirmation one_claim

claim_next-Ends_example :
    Claims.Ends engine dates input
      (claim_next engine dates input one_request).0
      one_request
      (claim_next engine dates input one_request).1
claim_next-Ends_example = claim_next-Ends engine dates input one_request

one_claim-IsUnique : IsUnique one_claim.reservation_seats
unfolding claim_next save_request ◌===◌ create_uuid_id create_non_empty_id
one_claim-IsUnique = tt

confirm_claimed-IsUnique_example :
    IsUnique
      (confirm_claimed engine dates item reservation confirmation one_claim).1.reservation_seats
confirm_claimed-IsUnique_example =
    confirm_claimed-IsUnique engine dates item reservation confirmation one_claim one_claim-IsUnique

-- The lease has run out, and another worker claims the request.
abbrev later : ClaimInput
later = record {
  worker_id = text "w2";
  claim_token = text "t2";
  claimed_at = 30 ∷ [];
  claim_expires_at = 40 ∷ [];
  max_lease_timeouts = 2;
  max_transient_failures = 3;
}

abbrev second_claim : Tables
second_claim = (claim_next engine dates later one_claim).1

abbrev second_item : ClaimedReservationRequest
second_item = record {
  reservation_request = record request { status = processing };
  observability_context = none;
  sequence = 1;
  claimed_by = text "w2";
  claim_token = text "t2";
  claimed_at = 30 ∷ [];
  claim_expires_at = 40 ∷ [];
  lease_timeout_count = 1;
  transient_failure_count = 0;
}

claims_again : claim_next engine dates later one_claim ≡ (ok (some second_item), second_claim)
unfolding save_request claim_next ◌===◌ create_uuid_id create_non_empty_id
claims_again = refl

one_claim-HasCanonicalIds : HasCanonicalIds one_claim
unfolding save_request claim_next ◌===◌ create_uuid_id create_non_empty_id
one_claim-HasCanonicalIds row m = elim m [
  | inl e ↦ subst (λ r. create_uuid_id r.id ≡ ok r.id) e refl
  | inr n ↦ absurd n
]

other_token : item.claim_token ≢ second_item.claim_token
other_token h = ground (arith, h)

stale_claim-IsRefused_example :
    IsRefused (reject_claimed engine item rejection) second_claim
    × IsRefused (release_for_retry engine item failure) second_claim
    × IsRefused (fail_claimed engine item failure) second_claim
    × IsRefused (confirm_claimed engine dates item reservation confirmation) second_claim
stale_claim-IsRefused_example =
    stale_claim-IsRefused engine dates later one_claim second_claim second_item item
      one_claim-HasCanonicalIds claims_again refl other_token rejection failure reservation
      confirmation
