-- ===== src/Tests/Postgres.antt =====
-- Concrete tables and an engine on lists for the tests of src/infrastructure/repositories/postgres.
use movie_reservation_servic.Prelude.{
  ◌+◌, ◌≡◌, refl, Bool, true, false, ◌&&◌, ◌||◌, none, some, [], ◌∷◌, ◌++◌, JsString, text, String,
  Result, ok, err, Exec, length, ◌===◌, leb, ltb, ◌==◌, arith,
}
use movie_reservation_servic.Errors.{Error, range_error}
use movie_reservation_servic.Domain.Ids.{create_uuid_id, create_non_empty_id}
use movie_reservation_servic.Domain.Request.{ReservationRequest, requested, processing}
use movie_reservation_servic.Work.{ClaimInput, ClaimedReservationRequest}
use movie_reservation_servic.Postgres.Rows.{Timestamp, date_value, ScreeningRow}
use movie_reservation_servic.Postgres.Tables.{Tables, Engine}
use movie_reservation_servic.Postgres.Requests.{save_request}
use movie_reservation_servic.Postgres.Claimer.{claim_next}
use movie_reservation_servic.Tests.Fixtures.{dates}

abbrev commit : {A : Type 0} → Exec Tables A → Exec Tables A
commit body t = let (r, t') = body t in elim r [ ok a ↦ (ok a, t') | err x ↦ (err x, t) ]

pub commit-ok :
    {A : Type 0} (body : Exec Tables A) (a : A) (t t' : Tables)
    → body t ≡ (ok a, t')
    → commit body t ≡ (ok a, t')
commit-ok body a t t' h = ground arith

pub commit-err :
    {A : Type 0} (body : Exec Tables A) (e : Error) (t t' : Tables)
    → body t ≡ (err e, t')
    → commit body t ≡ (err e, t)
commit-err body e t t' h = ground arith

abbrev pub to_column : JsString → Result Timestamp
to_column (n ∷ []) = ok (date_value n)
to_column s = err range_error

abbrev before : Timestamp → Timestamp → Bool
before (date_value a) (date_value b) = leb a b
before a b = false

abbrev lexicographic : JsString → JsString → Bool
lexicographic [] t = true
lexicographic (a ∷ s) [] = false
lexicographic (a ∷ s) (b ∷ t) = ltb a b || (a == b && lexicographic s t)

-- Nothing is locked, and every reference is met.
abbrev pub engine : Engine
engine = record {
  transaction = commit;
  transaction-commit = commit-ok;
  transaction-rollback = commit-err;
  now = λ t. date_value 0;
  timestamptz = to_column;
  at_or_before = before;
  is_locked = λ t row. false;
  next_identity = λ t. length t.requests + 1;
  check_references = λ t. ok tt;
  collates = lexicographic;
}

abbrev pub uuid : String → JsString
uuid s = text "00000000-0000-4000-8000-0000000000" ++ text s

abbrev evening : ScreeningRow
evening = record {
  id = uuid "c1";
  movie_provider_id = uuid "b1";
  movie_id = uuid "f1";
  auditorium_id = uuid "a1";
  starts_at = date_value 100;
  ends_at = date_value 200;
}

abbrev pub no_requests : Tables
no_requests = record {
  movie_providers = [];
  movies = [];
  auditoriums = [];
  screenings = evening ∷ [];
  seats = [];
  requests = [];
  request_seats = [];
  reservations = [];
  reservation_seats = [];
  attempts = [];
}

abbrev pub request : ReservationRequest
request = record {
  id = uuid "e1";
  movie_provider_id = uuid "b1";
  screening_id = uuid "c1";
  seat_ids = uuid "d1" ∷ [];
  requested_by_user_id = text "ann";
  status = requested;
}

abbrev pub one_request : Tables
one_request = (save_request engine request none no_requests).1

abbrev pub input : ClaimInput
input = record {
  worker_id = text "w1";
  claim_token = text "t1";
  claimed_at = 10 ∷ [];
  claim_expires_at = 20 ∷ [];
  max_lease_timeouts = 2;
  max_transient_failures = 3;
}

abbrev pub one_claim : Tables
one_claim = (claim_next engine dates input one_request).1

abbrev pub item : ClaimedReservationRequest
item = record {
  reservation_request = record request { status = processing };
  observability_context = none;
  sequence = 1;
  claimed_by = text "w1";
  claim_token = text "t1";
  claimed_at = 10 ∷ [];
  claim_expires_at = 20 ∷ [];
  lease_timeout_count = 0;
  transient_failure_count = 0;
}

pub saves : save_request engine request none no_requests ≡ (ok tt, one_request)
unfolding save_request ◌===◌
saves = refl

pub claims : claim_next engine dates input one_request ≡ (ok (some item), one_claim)
unfolding save_request claim_next ◌===◌ create_uuid_id create_non_empty_id
claims = refl
