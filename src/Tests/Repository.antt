-- ===== src/Tests/Repository.antt =====
-- The round trips, the heartbeats and the reads of src/infrastructure/repositories/postgres at
-- concrete tables.
use movie_reservation_servic.Prelude.{
  ◌≤◌, ◌≡◌, ◌≢◌, ◌⊎◌, refl, sym, ap, ◌∙◌, ===_iff, subst, ◌&&◌, if◌then◌else◌, true, false, none,
  some, [], ◌∷◌, text, ok, Has, filter, ◌===◌, arith, inl, inr,
}
use movie_reservation_servic.Domain.Ids.{create_uuid_id, create_non_empty_id}
use movie_reservation_servic.Domain.Request.{create_sequence, max_safe_integer}
use movie_reservation_servic.Work.{ProcessingAttempt}
use movie_reservation_servic.Memory.Store.{fresh_metadata}
use movie_reservation_servic.Memory.Claim.{consider, candidate, is_earlier}
use movie_reservation_servic.Memory.Reads.{SeatAvailability, ScreeningAvailability}
use movie_reservation_servic.Postgres.Rows.{AttemptRow, date_value, ReservationRequestRow}
use movie_reservation_servic.Postgres.Mappers.{to_iso_text, to_attempt}
use movie_reservation_servic.Postgres.Checks.{has_shape}
use movie_reservation_servic.Postgres.Shape.{null_reason-unreadable}
use movie_reservation_servic.Postgres.Tables.{Tables, order_by, update_where}
use movie_reservation_servic.Postgres.State.{attempt_row, insert_attempt, find_attempts}
use movie_reservation_servic.Postgres.Requests.{save_request, find_request_by_id, request_row}
use movie_reservation_servic.Postgres.Claimer.{claim_next, heartbeat, is_held, is_claimable}
use movie_reservation_servic.Postgres.Availability.{read}
use movie_reservation_servic.Postgres.Outcomes.{attempt_row-has_shape}
use movie_reservation_servic.Postgres.Attempts
use movie_reservation_servic.Postgres.Attempts.{ReadsBack, find_attempts-insert_attempt}
use movie_reservation_servic.Postgres.Saved
use movie_reservation_servic.Postgres.Saved.{find_request_by_id-save_request}
use movie_reservation_servic.Postgres.Save
use movie_reservation_servic.Postgres.Save.{save_request-Ends}
use movie_reservation_servic.Postgres.Beats.{IsKeyed, beat, heartbeat_lem}
use movie_reservation_servic.Postgres.Agreement.{Corresponds, both_unset, consider-is_claimable}
use movie_reservation_servic.Postgres.Bounds.{claim_next-bounds}
use movie_reservation_servic.Postgres.Seating.{IsOwn, Tells, read-Tells}
use movie_reservation_servic.Tests.Fixtures.{dates}
use movie_reservation_servic.Tests.Postgres.{
  engine, uuid, no_requests, request, one_request, input, one_claim, item, saves, claims,
}
use movie_reservation_servic.Tests.Database.{failure}

attempt_row-has_shape_example :
    has_shape (attempt_row (date_value 11) (date_value 12) (ProcessingAttempt.failed failure))
    ≡ true
attempt_row-has_shape_example =
    attempt_row-has_shape (date_value 11) (date_value 12) (ProcessingAttempt.failed failure)

-- A rejected attempt without a reason
abbrev no_reason : AttemptRow
no_reason = record {
  reservation_request_id = uuid "e1";
  reservation_request_sequence = 1;
  started_at = date_value 11;
  completed_at = date_value 12;
  outcome = text "rejected";
  reason = none;
  reservation_id = none;
  conflicting_reservation_id = some (uuid "f0");
}

null_reason-unreadable_example :
    (has_shape no_reason ≡ true) × ((a : ProcessingAttempt) → ¬ (to_attempt dates no_reason ≡ ok a))
null_reason-unreadable_example =
    null_reason-unreadable dates no_reason (uuid "f0") refl refl refl refl

reads_11 : ReadsBack engine dates (11 ∷ [])
unfolding to_iso_text
reads_11 at h = ground arith

reads_12 : ReadsBack engine dates (12 ∷ [])
unfolding to_iso_text
reads_12 at h = ground arith

failure-IsGuarded : Attempts.IsGuarded (ProcessingAttempt.failed failure)
unfolding create_uuid_id create_sequence
failure-IsGuarded = record { id = refl; sequence = refl; reservation = tt }

abbrev after_failure : Tables
after_failure = (insert_attempt engine (ProcessingAttempt.failed failure) one_claim).1

inserts :
    insert_attempt engine (ProcessingAttempt.failed failure) one_claim ≡ (ok tt, after_failure)
unfolding insert_attempt claim_next save_request ◌===◌ create_uuid_id create_non_empty_id
inserts = refl

no_attempts : find_attempts dates (uuid "e1") one_claim ≡ ok []
unfolding find_attempts claim_next save_request ◌===◌ create_uuid_id create_non_empty_id
no_attempts = refl

find_attempts-insert_attempt_example :
    find_attempts dates (uuid "e1") after_failure ≡ ok (ProcessingAttempt.failed failure ∷ [])
find_attempts-insert_attempt_example =
    find_attempts-insert_attempt engine dates (ProcessingAttempt.failed failure) one_claim
      after_failure [] failure-IsGuarded reads_11 reads_12 no_attempts inserts

request-IsGuarded : Saved.IsGuarded request
unfolding create_uuid_id create_non_empty_id
request-IsGuarded = record {
  id = refl;
  movie_provider_id = refl;
  screening_id = refl;
  requested_by_user_id = refl;
  seat_ids =
      λ id m. elim m [ inl e ↦ subst (λ i. create_uuid_id i ≡ ok i) e refl | inr n ↦ absurd n ];
}

find_request_by_id-save_request_example : find_request_by_id engine request.id one_request ≡ (
  ok (some (record request { seat_ids = order_by engine.collates request.seat_ids })),
  one_request,
)
unfolding filter
find_request_by_id-save_request_example =
    find_request_by_id-save_request engine request none no_requests one_request request-IsGuarded
      refl saves

save_request-Ends_example :
    Save.Ends engine request none no_requests
      (save_request engine request none no_requests).0
      (save_request engine request none no_requests).1
save_request-Ends_example = save_request-Ends engine request none no_requests

one_claim-IsKeyed : IsKeyed one_claim.requests
unfolding claim_next save_request ◌===◌ create_uuid_id create_non_empty_id
one_claim-IsKeyed = (λ y m. absurd m, tt)

heartbeat_lem_example :
    ((row : ReservationRequestRow) × Has row one_claim.requests
      × (is_held item row ≡ true)
      × (heartbeat engine item (15 ∷ []) (25 ∷ []) one_claim ≡ (
        ok true,
        record one_claim {
          requests =
              update_where
                (is_held item)
                (beat item engine (15 ∷ []) (25 ∷ []) (date_value 15) (date_value 25) one_claim)
                one_claim.requests;
        },
      )))
    ⊎ (((row : ReservationRequestRow) → Has row one_claim.requests → is_held item row ≡ false)
        × (heartbeat engine item (15 ∷ []) (25 ∷ []) one_claim ≡ (ok false, one_claim)))
heartbeat_lem_example =
    heartbeat_lem item engine (15 ∷ []) (25 ∷ []) (date_value 15) (date_value 25) one_claim
      one_claim-IsKeyed refl refl

abbrev row : ReservationRequestRow
row = request_row engine no_requests request none

row-Corresponds : Corresponds engine dates input (date_value 10) row request (fresh_metadata 1 none)
unfolding request_row
row-Corresponds = record { status = refl; transient_failure_count = refl; expiry = both_unset }

consider-is_claimable_example : consider dates input request (fresh_metadata 1 none) none ≡ (
    if is_claimable engine input (date_value 10) row && is_earlier 1 none
    then some (candidate dates input request (fresh_metadata 1 none))
    else none)
consider-is_claimable_example =
    consider-is_claimable engine dates input (date_value 10) row request (fresh_metadata 1 none)
      none row-Corresponds

one_request-IsKeyed : IsKeyed one_request.requests
unfolding save_request ◌===◌
one_request-IsKeyed = (λ y m. absurd m, tt)

one_request-within :
    (r : ReservationRequestRow)
    → Has r one_request.requests
    → r.lease_timeout_count ≤ input.max_lease_timeouts
unfolding save_request request_row ◌===◌
one_request-within r m = elim m [
  | inl e ↦ subst (λ z. z.lease_timeout_count ≤ 2) e (omega arith)
  | inr n ↦ absurd n
]

claim_next-bounds_example :
    (1 ≤ item.sequence)
    × (item.sequence ≤ max_safe_integer)
    × (item.lease_timeout_count ≤ input.max_lease_timeouts)
claim_next-bounds_example =
    claim_next-bounds engine dates input one_request one_claim item one_request-IsKeyed
      one_request-within claims

other_screening : uuid "c2" ≢ uuid "c1"
unfolding ◌===◌
other_screening e = let h : false ≡ true = (===_iff (uuid "c2") (uuid "c1")).1 e in cc h

-- The seat of the request and a reserved one, in the auditorium of the screening, and a reservation
-- of another provider's screening
abbrev with_seat : Tables
with_seat = record no_requests {
  seats =
      record {
        id = uuid "d1";
        movie_provider_id = uuid "b1";
        auditorium_id = uuid "a1";
        row_label = text "A";
        seat_number = 1;
      }
      ∷ record {
        id = uuid "d2";
        movie_provider_id = uuid "b1";
        auditorium_id = uuid "a1";
        row_label = text "A";
        seat_number = 2;
      }
      ∷ [];
  reservation_seats =
      record {
        reservation_id = uuid "f1";
        movie_provider_id = uuid "b1";
        screening_id = uuid "c1";
        auditorium_id = uuid "a1";
        seat_id = uuid "d2";
      }
      ∷ record {
        reservation_id = uuid "f2";
        movie_provider_id = uuid "b2";
        screening_id = uuid "c2";
        auditorium_id = uuid "a2";
        seat_id = uuid "d1";
      }
      ∷ [];
}

abbrev free_seat : SeatAvailability
free_seat = record { seat_id = uuid "d1"; available = true }

abbrev taken_seat : SeatAvailability
taken_seat = record { seat_id = uuid "d2"; available = false }

abbrev answer : ScreeningAvailability
answer = record { screening_id = uuid "c1"; seats = free_seat ∷ taken_seat ∷ [] }

with_seat-IsOwn : IsOwn (uuid "b1") (uuid "c1") with_seat
with_seat-IsOwn r m same = elim m [
  | inl e ↦ sym (ap (λ z. z.movie_provider_id) e)
  | inr n ↦ elim n [
    | inl e ↦ absurd (other_screening (ap (λ z. z.screening_id) e ∙ same))
    | inr k ↦ absurd k
  ]
]

answers : read (uuid "b1") (uuid "c1") with_seat ≡ ok (some answer)
unfolding read ◌===◌ create_uuid_id
answers = refl

read-Tells_example : Tells (uuid "b1") (uuid "c1") with_seat taken_seat
read-Tells_example =
    read-Tells (uuid "b1") (uuid "c1") with_seat answer taken_seat with_seat-IsOwn answers
      (inr (inl refl))
