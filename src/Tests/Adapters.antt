-- ===== src/Tests/Adapters.antt =====
-- The two adapters of the work repository side by side, at one claimed request.
use movie_reservation_servic.Prelude.{◌≡◌, refl, none, some, List, [], ◌∷◌, text, ok, filter, ◌===◌}
use movie_reservation_servic.Prelude.JsMap.{get, set, has, values}
use movie_reservation_servic.Domain.Ids.{create_uuid_id, create_non_empty_id}
use movie_reservation_servic.Domain.Request.{
  ReservationRequest, processing, rejected, create_sequence,
}
use movie_reservation_servic.Memory.Store.{Store, WorkMetadata, empty}
use movie_reservation_servic.Memory.Store
use movie_reservation_servic.Memory.Claim
use movie_reservation_servic.Memory.Reads.{find_attempts_by_request_id}
use movie_reservation_servic.Postgres.Rows.{date_value, ReservationRequestRow}
use movie_reservation_servic.Postgres.Tables.{Tables}
use movie_reservation_servic.Postgres.Requests
use movie_reservation_servic.Postgres.Claimer
use movie_reservation_servic.Postgres.State.{reject_claimed}
use movie_reservation_servic.Postgres.Alike.{holds}
use movie_reservation_servic.Postgres.Simulation.{
  Simulates, reject, in_tables, in_store, in_tables-Simulates,
}
use movie_reservation_servic.Tests.Fixtures.{dates}
use movie_reservation_servic.Tests.Postgres.{engine, no_requests, request, input, one_claim, item}
use movie_reservation_servic.Tests.Database.{rejection}

-- The in-memory store after the same request and the same claim
abbrev claimed_store : Store
claimed_store = (Claim.claim_next dates input (Store.save_request request none empty).1).1

abbrev head_or : ReservationRequestRow → List ReservationRequestRow → ReservationRequestRow
head_or row [] = row
head_or row (x ∷ xs) = x

abbrev metadata : WorkMetadata
metadata = record {
  sequence = 1;
  observability_context = none;
  lease_timeout_count = 0;
  transient_failure_count = 0;
  claimed_by = some (text "w1");
  claim_token = some (text "t1");
  claimed_at = some (10 ∷ []);
  claim_expires_at = some (20 ∷ []);
  last_heartbeat_at = some (10 ∷ []);
}

claimed-Simulates : Simulates engine item.reservation_request.id claimed_store one_claim
unfolding Claim.claim_next Store.save_request Claimer.claim_next Requests.save_request get set has
    values filter create_sequence ◌===◌ create_uuid_id create_non_empty_id Claim.scan
    Store.metadata_of Claim.consider Claim.take_over Claim.is_expired find_attempts_by_request_id
claimed-Simulates = record {
  r = record request { status = processing };
  m = metadata;
  row = head_or (Requests.request_row engine no_requests request none) one_claim.requests;
  stored = refl;
  tracked = refl;
  found = refl;
  named = refl;
  same = record {
    id = refl;
    movie_provider_id = refl;
    screening_id = refl;
    requested_by_user_id = refl;
    sequence = refl;
    status = refl;
    claimed_by = refl;
    claim_token = refl;
    claimed_at = holds (date_value 10) (10 ∷ []) refl;
    claim_expires_at = holds (date_value 20) (20 ∷ []) refl;
    last_heartbeat_at = holds (date_value 10) (10 ∷ []) refl;
    lease_timeout_count = refl;
    transient_failure_count = refl;
  };
  seats = refl;
  attempts = tt;
}

abbrev rejected_tables : Tables
rejected_tables = (in_tables engine item (reject rejection) one_claim).1

rejects :
    in_tables engine item (reject rejection) one_claim
    ≡ (ok (record request { status = rejected }), rejected_tables)
unfolding Claimer.claim_next Requests.save_request reject_claimed ◌===◌ create_uuid_id
    create_non_empty_id
rejects = refl

in_tables-Simulates_example :
    (q' : ReservationRequest) × (s' : Store) × (in_store item (reject rejection) claimed_store
      ≡ (ok q', s'))
    × (q'.status ≡ rejected)
    × Simulates engine item.reservation_request.id s' rejected_tables
in_tables-Simulates_example =
    in_tables-Simulates engine item (reject rejection) claimed_store one_claim rejected_tables
      (record request { status = rejected }) claimed-Simulates rejects
