-- ===== src/Tests/Store.antt =====
-- The properties of the work repository at concrete stores.
use movie_reservation_servic.Prelude.{
  ◌≡◌, ◌===◌, ◌↔◌, refl, some, none, [], ◌∷◌, text, ok, arith, includes, inl, List,
}
use movie_reservation_servic.Prelude.JsMap.{get, set, has, values}
use movie_reservation_servic.Dates.{not_after}
use movie_reservation_servic.Domain.Request.{
  processing, confirmed, create_sequence, ReservationRequest,
}
use movie_reservation_servic.Work
use movie_reservation_servic.Work.{ClaimedReservationRequest, unexpected_error}
use movie_reservation_servic.Memory.Store.{
  Store, WorkMetadata, empty, fresh_metadata, save_request, metadata_of,
}
use movie_reservation_servic.Memory.Invariant.{IsWellFormed}
use movie_reservation_servic.Memory.Claim.{claim_next, scan, consider, take_over, is_expired}
use movie_reservation_servic.Memory.Settle.{first_conflict, require_claimed, confirm_claimed}
use movie_reservation_servic.Memory.Effect.{Command, run}
use movie_reservation_servic.Memory.History.{run_all, run_all-IsWellFormed}
use movie_reservation_servic.Memory.Owned.{IsOwned, with_status}
use movie_reservation_servic.Memory.Exclusive.{IsExclusive}
use movie_reservation_servic.Memory.Bookings.{run_all-IsExclusive}
use movie_reservation_servic.Memory.Fifo.{
  claim_next_of_IsNext, IsNext, IsIdle, claim_result, claimed_item,
}
use movie_reservation_servic.Memory.Lease.{IsLeased, run_all-IsLeased}
use movie_reservation_servic.Memory.Lost.{require_claimed_iff, lost_claim-unchanged}
use movie_reservation_servic.Memory.Race.{confirm_both, confirm_both-not-IsExclusive}
use movie_reservation_servic.Tests.Fixtures.{
  dates, request_for, worker, two_requests, two_requests-IsWellFormed, two_claims, reservation_of,
  attempt_of,
}
use movie_reservation_servic.Tests.Claims.{
  r1, r2, m1, m2, first_claimed, second_claimed, two_claims-IsWellFormed,
}

-- The first worker's work item, and the second's.
abbrev pub item1 : ClaimedReservationRequest
item1 = claimed_item dates (worker (text "w1") (text "t1") 10) r1 (fresh_metadata 1 none)

abbrev item2 : ClaimedReservationRequest
item2 = claimed_item dates (worker (text "w2") (text "t2") 11) r2 (fresh_metadata 2 none)

pub item1-IsOwned : IsOwned two_claims item1 (with_status r1 processing) m1
item1-IsOwned = record {
  stored = first_claimed.0;
  tracked = first_claimed.1;
  in_order = refl;
  claimed_by = refl;
  claim_token = refl;
  status = refl;
}

item2-IsOwned : IsOwned two_claims item2 (with_status r2 processing) m2
item2-IsOwned = record {
  stored = second_claimed.0;
  tracked = second_claimed.1;
  in_order = refl;
  claimed_by = refl;
  claim_token = refl;
  status = refl;
}

abbrev confirmation : Command
confirmation =
    Command.confirm item1 (reservation_of (text "b1") (text "r1"))
      (record { base = attempt_of (text "r1") 1; reservation_id = text "b1" })

abbrev one_confirmed : Store
one_confirmed = run_all dates (confirmation ∷ []) two_claims

-- Both workers go on, whatever the outcome.
abbrev rest : List Command
rest =
    confirmation
    ∷ Command.confirm item2 (reservation_of (text "b2") (text "r2"))
        (record { base = attempt_of (text "r2") 2; reservation_id = text "b2" })
    ∷ Command.claim (worker (text "w3") (text "t3") 40)
    ∷ []

-- No reservation at all.
none-IsExclusive : IsExclusive []
unfolding get
none-IsExclusive = record { apart = λ j k a b p q ne. absurd (ground arith) }

run_all-IsWellFormed_example : IsWellFormed (run_all dates rest two_claims)
unfolding run_all run save_request claim_next get scan values has create_sequence set ◌===◌
    metadata_of consider take_over is_expired not_after
run_all-IsWellFormed_example =
    run_all-IsWellFormed dates rest two_claims two_claims-IsWellFormed (omega arith)

run_all-IsExclusive_example : IsExclusive (run_all dates rest two_claims).reservations
unfolding run_all run save_request claim_next get scan values has create_sequence set ◌===◌
    metadata_of consider take_over is_expired not_after
run_all-IsExclusive_example =
    run_all-IsExclusive dates rest two_claims two_claims-IsWellFormed (omega arith) none-IsExclusive

confirm_both-not-IsExclusive_example :
    (t : Store) × (confirm_both item1
        (reservation_of (text "b1") (text "r1"))
        (record { base = attempt_of (text "r1") 1; reservation_id = text "b1" })
        item2
        (reservation_of (text "b2") (text "r2"))
        (record { base = attempt_of (text "r2") 2; reservation_id = text "b2" })
        two_claims
      ≡ (
        ok (
          Work.ConfirmResult.confirmed (with_status r1 confirmed),
          Work.ConfirmResult.confirmed (with_status r2 confirmed),
        ),
        t,
      ))
    × ¬ IsExclusive t.reservations
unfolding run_all run save_request claim_next get scan values has create_sequence set ◌===◌
    metadata_of consider take_over is_expired not_after first_conflict includes
confirm_both-not-IsExclusive_example =
    confirm_both-not-IsExclusive item1 item2 (reservation_of (text "b1") (text "r1"))
      (reservation_of (text "b2") (text "r2"))
      (record { base = attempt_of (text "r1") 1; reservation_id = text "b1" })
      (record { base = attempt_of (text "r2") 2; reservation_id = text "b2" }) two_claims
      (with_status r1 processing) (with_status r2 processing) m1 m2 (text "a1")
      two_claims-IsWellFormed item1-IsOwned item2-IsOwned (ground arith) (ground arith) refl refl
      refl refl refl refl refl

-- After the confirmation the first request is CONFIRMED, and its reservation is stored.
confirmation-stored :
    (get one_confirmed.requests (text "r1") ≡ some (with_status r1 confirmed))
    × (get one_confirmed.reservations (text "b1") ≡ some (reservation_of (text "b1") (text "r1")))
unfolding run_all run save_request claim_next get scan values has create_sequence set ◌===◌
    metadata_of consider take_over is_expired not_after confirm_claimed first_conflict
    require_claimed
confirmation-stored = (refl, refl)

one_confirmed-IsWellFormed : IsWellFormed one_confirmed
unfolding run_all run save_request claim_next get scan values has create_sequence set ◌===◌
    metadata_of consider take_over is_expired not_after confirm_claimed first_conflict
    require_claimed
one_confirmed-IsWellFormed =
    run_all-IsWellFormed dates (confirmation ∷ []) two_claims two_claims-IsWellFormed (omega arith)

-- Other workers, before the first claim's lease ends at 20.
abbrev meanwhile : List Command
meanwhile =
    Command.claim (worker (text "w3") (text "t3") 19)
    ∷ Command.fail item2 (record { base = attempt_of (text "r2") 2; reason = unexpected_error })
    ∷ Command.save (request_for (text "r3")) none
    ∷ []

run_all-IsLeased_example :
    IsLeased dates
      (text "r1")
      (text "t1")
      20
      (run_all dates meanwhile two_claims)
      (with_status r1 processing)
      m1
unfolding run_all run save_request claim_next get scan values has create_sequence set ◌===◌
    metadata_of consider take_over is_expired not_after
run_all-IsLeased_example =
    run_all-IsLeased dates (text "r1") (text "t1") 20 meanwhile two_claims
      (with_status r1 processing) m1 two_claims-IsWellFormed (omega arith)
      (record {
        stored = first_claimed.0;
        tracked = first_claimed.1;
        status = refl;
        claim_token = refl;
        expires_at = 20 ∷ [];
        claim_expires_at = refl;
        time = refl;
      })
      ((19, refl, omega arith), ((λ e. ground arith), (tt, tt)))

require_claimed_iff_example :
    ((require_claimed item1 two_claims).0 ≡ ok (with_status r1 processing))
    ↔ ((m : WorkMetadata) × IsOwned two_claims item1 (with_status r1 processing) m)
require_claimed_iff_example = require_claimed_iff item1 two_claims (with_status r1 processing)

-- The store before any claim holds none.
nothing-IsOwned : (r : ReservationRequest) (m : WorkMetadata) → ¬ IsOwned two_requests item1 r m
unfolding run_all run save_request claim_next get scan values has create_sequence set ◌===◌
    metadata_of consider take_over is_expired not_after
nothing-IsOwned r m o = let token = o.claim_token in let at = o.tracked in absurd (ground arith)

lost_claim-unchanged_example :
    (run dates confirmation two_requests ≡ two_requests)
    × (run dates
          (Command.reject item1
            (record { base = attempt_of (text "r1") 1; conflicting_reservation_id = text "b9" }))
          two_requests
        ≡ two_requests)
    × (run dates
          (Command.release item1
            (record { base = attempt_of (text "r1") 1; reason = unexpected_error }))
          two_requests
        ≡ two_requests)
    × (run dates
          (Command.fail item1
            (record { base = attempt_of (text "r1") 1; reason = unexpected_error }))
          two_requests
        ≡ two_requests)
lost_claim-unchanged_example =
    lost_claim-unchanged item1 two_requests dates (reservation_of (text "b1") (text "r1"))
      (record { base = attempt_of (text "r1") 1; reservation_id = text "b1" })
      (record { base = attempt_of (text "r1") 1; conflicting_reservation_id = text "b9" })
      (record { base = attempt_of (text "r1") 1; reason = unexpected_error }) nothing-IsOwned

empty-IsIdle : IsIdle dates (worker (text "w1") (text "t1") 10) empty
unfolding get
empty-IsIdle k q n p at good = absurd (ground arith)

-- The request with the sequence number 1 is the first that may be claimed.
first-IsNext :
    IsNext dates (worker (text "w1") (text "t1") 10) two_requests r1 (fresh_metadata 1 none)
unfolding run_all run save_request get values has create_sequence set ◌===◌
first-IsNext = record {
  stored = refl;
  tracked = refl;
  eligible = inl (refl, omega arith);
  lowest = λ k q n p at good. (two_requests-IsWellFormed.numbered k n at).0;
}

claim_next_of_IsNext_example :
    claim_next dates (worker (text "w1") (text "t1") 10) two_requests
    ≡ claim_result dates (worker (text "w1") (text "t1") 10) two_requests r1 (fresh_metadata 1 none)
claim_next_of_IsNext_example =
    claim_next_of_IsNext dates (worker (text "w1") (text "t1") 10) two_requests
      two_requests-IsWellFormed r1 (fresh_metadata 1 none) first-IsNext
