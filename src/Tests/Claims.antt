-- ===== src/Tests/Claims.antt =====
-- Claims of the work repository at concrete stores.
use movie_reservation_servic.Prelude.{◌===◌, ◌≡◌, refl, none, some, text, arith}
use movie_reservation_servic.Prelude.JsMap.{get, set, has, values}
use movie_reservation_servic.Dates.{not_after}
use movie_reservation_servic.Domain.Request.{ReservationRequest, processing, create_sequence}
use movie_reservation_servic.Memory.Store.{WorkMetadata, fresh_metadata, save_request, metadata_of}
use movie_reservation_servic.Memory.Invariant.{IsWellFormed}
use movie_reservation_servic.Memory.Effect.{run}
use movie_reservation_servic.Memory.Claim.{
  claim_next, scan, consider, take_over, is_expired, claim_metadata, candidate,
}
use movie_reservation_servic.Memory.Owned.{with_status}
use movie_reservation_servic.Memory.History.{run_all, run_all-IsWellFormed}
use movie_reservation_servic.Tests.Fixtures.{
  dates, request_for, worker, claims, two_requests, two_requests-IsWellFormed, two_claims,
}

abbrev pub r1 : ReservationRequest
r1 = request_for (text "r1")

abbrev pub r2 : ReservationRequest
r2 = request_for (text "r2")

abbrev pub m1 : WorkMetadata
m1 =
    claim_metadata (worker (text "w1") (text "t1") 10)
      (candidate dates (worker (text "w1") (text "t1") 10) r1 (fresh_metadata 1 none))

-- After both claims the first request is PROCESSING, under the first worker's token.
pub first_claimed :
    (get two_claims.requests (text "r1") ≡ some (with_status r1 processing))
    × (get two_claims.work_metadata (text "r1") ≡ some m1)
unfolding run_all run save_request claim_next get scan values has create_sequence set ◌===◌
    metadata_of consider take_over is_expired not_after
first_claimed = (refl, refl)

abbrev pub m2 : WorkMetadata
m2 =
    claim_metadata (worker (text "w2") (text "t2") 11)
      (candidate dates (worker (text "w2") (text "t2") 11) r2 (fresh_metadata 2 none))

pub second_claimed :
    (get two_claims.requests (text "r2") ≡ some (with_status r2 processing))
    × (get two_claims.work_metadata (text "r2") ≡ some m2)
unfolding run_all run save_request claim_next get scan values has create_sequence set ◌===◌
    metadata_of consider take_over is_expired not_after
second_claimed = (refl, refl)

pub two_claims-IsWellFormed : IsWellFormed two_claims
unfolding run_all run save_request claim_next get scan values has create_sequence set ◌===◌
    metadata_of consider take_over is_expired not_after
two_claims-IsWellFormed =
    run_all-IsWellFormed dates claims two_requests two_requests-IsWellFormed (omega arith)
