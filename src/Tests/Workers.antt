-- ===== src/Tests/Workers.antt =====
-- The processor at concrete worlds.
use movie_reservation_servic.Prelude.{
  ◌≡◌, ◌===◌, refl, true, false, none, some, List, [], ◌∷◌, text, ok, arith, includes,
}
use movie_reservation_servic.Prelude.JsMap.{get, set, has, values}
use movie_reservation_servic.Dates.{not_after, add_milliseconds}
use movie_reservation_servic.Domain.Request.{confirmed, processing, create_sequence}
use movie_reservation_servic.Domain.Reservation.{Reservation, create_reservation}
use movie_reservation_servic.Memory.Store.{Store, empty, save_request, metadata_of}
use movie_reservation_servic.Work.{AttemptBase}
use movie_reservation_servic.Memory.Invariant.{IsWellFormed}
use movie_reservation_servic.Memory.Claim.{claim_next, scan, consider, take_over, is_expired}
use movie_reservation_servic.Memory.Settle.{
  first_conflict, find_conflict, require_claimed, confirm_claimed,
}
use movie_reservation_servic.Memory.Exclusive.{IsExclusive}
use movie_reservation_servic.Memory.Effect.{run}
use movie_reservation_servic.Memory.History.{run_all}
use movie_reservation_servic.Memory.Owned.{with_status}
use movie_reservation_servic.Processor.World.{
  World, Ports, Options, ProcessingInput, ProcessingResult,
}
use movie_reservation_servic.Processor.Steps.{
  tell, process_next, process_claimed, settle_work_item, confirm_work_item, report_terminal,
}
use movie_reservation_servic.Processor.Progress.{
  IsConfirmable, attempt_in, reservation_in, process_claimed-confirms,
}
use movie_reservation_servic.Tests.Store.{item1, item1-IsOwned}
use movie_reservation_servic.Tests.Claims.{r1, m1}
use movie_reservation_servic.Processor.Reported.{IsReported}
use movie_reservation_servic.Processor.Reports.{process_next-IsReported}
use movie_reservation_servic.Processor.Jobs.{
  Job, submit, work, run_job, run_jobs, run_jobs-IsWellFormed, run_jobs-IsExclusive,
  run_jobs-IsTerminal,
}
use movie_reservation_servic.Tests.Fixtures.{
  dates, request_for, empty-IsWellFormed, two_requests, two_claims, two_requests-IsWellFormed,
}

abbrev ports : Ports
ports = record {
  dates = dates;
  now_iso_string = λ n. n ∷ [];
  generate_reservation_id = λ n. text "b";
  random_uuid = λ n. text "t";
  should_fail = λ id. false;
  observe = λ e. none;
}

abbrev options : Options
options = record {
  worker_id = text "w1";
  claim_lease_ms = 10;
  max_lease_timeouts = 2;
  max_transient_failures = 3;
  create_claim_token = none;
}

abbrev input : ProcessingInput
input = record { claim_token = some (text "t1"); has_on_claimed = true }

abbrev world : Store → World
world s = record { store = s; log = []; clock_calls = 0; id_calls = 0; token_calls = 0 }

abbrev jobs : List Job
jobs =
    submit (request_for (text "r1")) none
    ∷ submit (request_for (text "r2")) none
    ∷ work options input
    ∷ work options input
    ∷ []

empty-IsExclusive : IsExclusive empty.reservations
unfolding get
empty-IsExclusive = record { apart = λ j k a b p q ne. absurd (ground arith) }

run_jobs-IsExclusive_example : IsExclusive (run_jobs ports jobs (world empty)).store.reservations
run_jobs-IsExclusive_example =
    run_jobs-IsExclusive ports jobs (world empty) empty-IsWellFormed (omega arith) empty-IsExclusive

abbrev booked : Reservation
booked = record {
  id = text "b";
  movie_provider_id = text "lux";
  reservation_request_id = text "r1";
  screening_id = text "evening";
  seat_ids = text "a1" ∷ [];
  reserved_by_user_id = text "ann";
  confirmed_at = 1 ∷ [];
}

abbrev base : AttemptBase
base = record {
  reservation_request_id = text "r1";
  sequence = 1;
  started_at = 0 ∷ [];
  completed_at = 2 ∷ [];
}

abbrev result : ProcessingResult
result =
    ProcessingResult.confirmed (record { base = base; reservation_id = text "b" })
      (with_status (request_for (text "r1")) confirmed) booked

first_processed : (process_next ports options input (world two_requests)).0 ≡ ok result
unfolding process_next process_claimed settle_work_item confirm_work_item report_terminal tell
    add_milliseconds claim_next scan values run_all run save_request has create_sequence set ◌===◌
    metadata_of consider take_over is_expired not_after find_conflict first_conflict require_claimed
    confirm_claimed create_reservation get includes
first_processed = refl

process_next-IsReported_example :
    IsReported ports options
      (ports.now_iso_string 0)
      result
      (process_next ports options input (world two_requests)).1.store
process_next-IsReported_example =
    process_next-IsReported ports options input (world two_requests) result
      two_requests-IsWellFormed first_processed

-- The world after the first job: its request is CONFIRMED, and its reservation stored.
abbrev after_first : World
after_first = (process_next ports options input (world two_requests)).1

abbrev later : List Job
later = work options input ∷ submit (request_for (text "r3")) none ∷ work options input ∷ []

after_first-IsWellFormed : IsWellFormed after_first.store
unfolding process_next process_claimed settle_work_item confirm_work_item report_terminal tell
    add_milliseconds claim_next scan values run_all run save_request has create_sequence set ◌===◌
    metadata_of consider take_over is_expired not_after find_conflict first_conflict require_claimed
    confirm_claimed create_reservation get includes run_jobs run_job
after_first-IsWellFormed =
    run_jobs-IsWellFormed ports (work options input ∷ []) (world two_requests)
      two_requests-IsWellFormed (omega arith)

first-stored :
    (get after_first.store.requests (text "r1")
      ≡ some (with_status (request_for (text "r1")) confirmed))
    × (get after_first.store.reservations (text "b") ≡ some booked)
unfolding process_next process_claimed settle_work_item confirm_work_item report_terminal tell
    add_milliseconds claim_next scan values run_all run save_request has create_sequence set ◌===◌
    metadata_of consider take_over is_expired not_after find_conflict first_conflict require_claimed
    confirm_claimed create_reservation get includes
first-stored = (refl, refl)

run_jobs-IsTerminal_example :
    get (run_jobs ports later after_first).store.requests (text "r1")
    ≡ some (with_status (request_for (text "r1")) confirmed)
unfolding process_next process_claimed settle_work_item confirm_work_item report_terminal tell
    add_milliseconds claim_next scan values run_all run save_request has create_sequence set ◌===◌
    metadata_of consider take_over is_expired not_after find_conflict first_conflict require_claimed
    confirm_claimed create_reservation get includes
run_jobs-IsTerminal_example =
    run_jobs-IsTerminal ports later after_first after_first-IsWellFormed (omega arith) (text "r1")
      (with_status (request_for (text "r1")) confirmed) first-stored.0 tt

item1-IsConfirmable :
    IsConfirmable ports options item1 (10 ∷ []) (world two_claims) (with_status r1 processing) m1
unfolding run_all run save_request claim_next get scan values has create_sequence set ◌===◌
    metadata_of consider take_over is_expired not_after first_conflict includes
item1-IsConfirmable = record {
  owned = item1-IsOwned;
  named = refl;
  allowed = refl;
  some_seat = λ e. ground arith;
  distinct = (refl, tt);
  fresh = refl;
  free = refl;
}

process_claimed-confirms_example :
    (process_claimed ports options item1 input (10 ∷ []) (world two_claims)).0
    ≡ ok (
        ProcessingResult.confirmed
          (attempt_in ports options item1 (10 ∷ []) (world two_claims))
          (with_status (with_status r1 processing) confirmed)
          (reservation_in ports options item1 (10 ∷ []) (world two_claims)))
process_claimed-confirms_example =
    process_claimed-confirms ports options item1 (10 ∷ []) input (world two_claims)
      (with_status r1 processing) m1 item1-IsConfirmable (λ e. refl)
