-- ===== src/Tests/Fixtures.antt =====
-- Concrete times, requests and workers for the tests.
use movie_reservation_servic.Prelude.{
  ℕ, ◌+◌, ◌≡◌, Option, none, some, List, [], ◌∷◌, JsString, text, arith,
}
use movie_reservation_servic.Prelude.JsMap.{get}
use movie_reservation_servic.Dates.{Dates}
use movie_reservation_servic.Domain.Request.{ReservationRequest, requested}
use movie_reservation_servic.Domain.Reservation.{Reservation}
use movie_reservation_servic.Work.{ClaimInput, AttemptBase}
use movie_reservation_servic.Memory.Store.{Store, empty}
use movie_reservation_servic.Memory.Invariant.{IsWellFormed}
use movie_reservation_servic.Memory.Effect.{Command}
use movie_reservation_servic.Memory.History.{run_all, run_all-IsWellFormed}

-- A time is text of one unit, its number of milliseconds.
abbrev time_of : JsString → Option ℕ
time_of (n ∷ []) = some n
time_of s = none

pub time_of-unit : (n : ℕ) (s : JsString) → some (n ∷ []) ≡ some s → time_of s ≡ some n
time_of-unit n s h = ground arith

abbrev pub dates : Dates
dates = record {
  get_time = time_of;
  to_iso_string = λ n. some (n ∷ []);
  get_time-to_iso_string = time_of-unit;
}

-- A request for seat a1 of the evening screening.
abbrev pub request_for : JsString → ReservationRequest
request_for id = record {
  id = id;
  movie_provider_id = text "lux";
  screening_id = text "evening";
  seat_ids = text "a1" ∷ [];
  requested_by_user_id = text "ann";
  status = requested;
}

abbrev pub worker : JsString → JsString → ℕ → ClaimInput
worker id token now = record {
  worker_id = id;
  claim_token = token;
  claimed_at = now ∷ [];
  claim_expires_at = (now + 10) ∷ [];
  max_lease_timeouts = 2;
  max_transient_failures = 3;
}

abbrev pub attempt_of : JsString → ℕ → AttemptBase
attempt_of id sequence = record {
  reservation_request_id = id;
  sequence = sequence;
  started_at = 5 ∷ [];
  completed_at = 6 ∷ [];
}

abbrev pub reservation_of : JsString → JsString → Reservation
reservation_of id request_id = record {
  id = id;
  movie_provider_id = text "lux";
  reservation_request_id = request_id;
  screening_id = text "evening";
  seat_ids = text "a1" ∷ [];
  reserved_by_user_id = text "ann";
  confirmed_at = 6 ∷ [];
}

pub empty-IsWellFormed : IsWellFormed empty
unfolding get
empty-IsWellFormed = record {
  map = tt;
  keyed = λ k r p. ground arith;
  tracked = λ k r p. absurd (ground arith);
  positive = omega arith;
  numbered = λ k m p. absurd (ground arith);
  distinct = λ j k m n p q e. ground arith;
}

-- Two requests for one seat, saved in turn.
abbrev pub saves : List Command
saves =
    Command.save (request_for (text "r1")) none ∷ Command.save (request_for (text "r2")) none ∷ []

abbrev pub two_requests : Store
two_requests = run_all dates saves empty

pub two_requests-IsWellFormed : IsWellFormed two_requests
two_requests-IsWellFormed = run_all-IsWellFormed dates saves empty empty-IsWellFormed (omega arith)

-- Two workers claim them.
abbrev pub claims : List Command
claims =
    Command.claim (worker (text "w1") (text "t1") 10)
    ∷ Command.claim (worker (text "w2") (text "t2") 11)
    ∷ []

abbrev pub two_claims : Store
two_claims = run_all dates claims two_requests
