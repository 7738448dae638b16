-- ===== src/FakeWorker.antt =====
-- src/di/movie-reservations/fake-reservation-request-worker.service.ts: the fields of the service,
-- the timers of the event loop that it arms, and its callbacks as steps. A timer that is armed may
-- fire at any later time, so that no delay is needed; the processor and the repository answer at
-- any time.
pub mod Invariant
pub mod Shutdown
use movie_reservation_servic.Prelude.{
  ℕ, ◌+◌, ◌≡◌, Bool, true, false, not, Option, none, some, List, [], ◌∷◌, ◌++◌, JsString, Result,
  ok, err, Has, filter, ◌==◌, if◌then◌else◌,
}
use movie_reservation_servic.Dates.{Dates, add_milliseconds}
use movie_reservation_servic.Work.{ClaimedReservationRequest}

-- A heartbeat that the repository has not answered yet
pub record Beat : Type 0 where
  pub item : ClaimedReservationRequest
  pub heartbeat_at : JsString
  pub claim_expires_at : JsString

-- Where `processOneWorkItem` stands: not called, waiting for the processor, or returned but with
-- the callbacks of `scheduleNextPoll` still to run
pub data Phase : Type 0 where
  idle waiting returned : Phase

pub record Worker : Type 0 where
  -- the fields of the service
  pub poll_timer : Option ℕ
  pub heartbeat_timer : Option ℕ
  pub stopping : Bool
  pub in_flight : Bool
  -- the variable of the call of `processOneWorkItem`
  pub claimed_work_item : Option ClaimedReservationRequest
  -- the event loop
  pub timeouts : List ℕ
  pub intervals : List ℕ
  pub next_timer : ℕ
  pub beats : List Beat
  pub phase : Phase

abbrev pub created : Worker
created = record {
  poll_timer = none;
  heartbeat_timer = none;
  stopping = false;
  in_flight = false;
  claimed_work_item = none;
  timeouts = [];
  intervals = [];
  next_timer = 0;
  beats = [];
  phase = idle;
}

-- `clearTimeout` and `clearInterval`
unfoldable pub disarm : ℕ → List ℕ → List ℕ
unfolding filter
disarm timer timers = filter (λ n. not (n == timer)) timers

abbrev pub clear_poll : Option ℕ → Worker → Worker
clear_poll none w = w
clear_poll (some n) w = record w { timeouts = disarm n w.timeouts; poll_timer = none }

-- `clearPollTimer`
unfoldable pub clear_poll_timer : Worker → Worker
unfolding disarm
clear_poll_timer w = clear_poll w.poll_timer w

abbrev pub clear_heartbeat : Option ℕ → Worker → Worker
clear_heartbeat none w = w
clear_heartbeat (some n) w = record w { intervals = disarm n w.intervals; heartbeat_timer = none }

-- `clearHeartbeatTimer`
unfoldable pub clear_heartbeat_timer : Worker → Worker
unfolding disarm
clear_heartbeat_timer w = clear_heartbeat w.heartbeat_timer w

-- `scheduleNextPoll`
unfoldable pub schedule_next_poll : Worker → Worker
schedule_next_poll w = if w.stopping then w else record w {
  poll_timer = some w.next_timer;
  timeouts = w.timeouts ++ w.next_timer ∷ [];
  next_timer = w.next_timer + 1;
}

-- `onApplicationBootstrap`
unfoldable pub on_application_bootstrap : Worker → Worker
unfolding schedule_next_poll
on_application_bootstrap w = schedule_next_poll w

-- `onApplicationShutdown`, up to its `await`
unfoldable pub on_application_shutdown : Worker → Worker
unfolding clear_poll_timer clear_heartbeat_timer
on_application_shutdown w = clear_heartbeat_timer (clear_poll_timer (record w { stopping = true }))

-- The callback of the poll timer, with `processOneWorkItem` up to its `await`
unfoldable pub poll : ℕ → Worker → Worker
unfolding disarm
poll timer w = record w {
  timeouts = disarm timer w.timeouts;
  in_flight = true;
  claimed_work_item = none;
  heartbeat_timer = some w.next_timer;
  intervals = w.intervals ++ w.next_timer ∷ [];
  next_timer = w.next_timer + 1;
  phase = waiting;
}

-- `onClaimed`
unfoldable pub on_claimed : ClaimedReservationRequest → Worker → Worker
on_claimed item w = record w { claimed_work_item = some item }

abbrev pub beat_of : ClaimedReservationRequest → JsString → Result JsString → List Beat
beat_of item heartbeat_at (ok claim_expires_at) =
    record { item = item; heartbeat_at = heartbeat_at; claim_expires_at = claim_expires_at } ∷ []
beat_of item heartbeat_at (err e) = []

abbrev pub beat_for : Dates → ℕ → JsString → Option ClaimedReservationRequest → Worker → Worker
beat_for d claim_lease_ms now none w = w
beat_for d claim_lease_ms now (some item) w = record w {
  beats = w.beats ++ beat_of item now (add_milliseconds d now claim_lease_ms);
}

-- The callback of the interval, with `heartbeat` up to its `await`
unfoldable pub beat : Dates → ℕ → JsString → Worker → Worker
unfolding add_milliseconds
beat d claim_lease_ms now w = beat_for d claim_lease_ms now w.claimed_work_item w

-- The rest of `heartbeat`, once the repository has answered; when it throws, the state is as after
-- `true`, and nobody handles the error
unfoldable pub answered : Bool → Worker → Worker
unfolding clear_heartbeat_timer
answered renewed w = if not renewed then clear_heartbeat_timer w else w

-- The `finally` of `processOneWorkItem`, when the processor has returned or thrown
unfoldable pub leave : Worker → Worker
unfolding clear_heartbeat_timer
leave w = record (clear_heartbeat_timer w) { phase = returned }

-- The `catch` and the `finally` of `scheduleNextPoll`
unfoldable pub finish : Worker → Worker
unfolding schedule_next_poll
finish w = schedule_next_poll (record w { in_flight = false; phase = idle })

-- What may happen next
pub data Step (d : Dates) (claim_lease_ms : ℕ) : Worker → Worker → Type 0 where
  timeout_fires : (w : Worker) (n : ℕ) → Has n w.timeouts → Step d claim_lease_ms w (poll n w)
  claim_made :
      (w : Worker) (item : ClaimedReservationRequest)
      → w.phase ≡ waiting
      → Step d claim_lease_ms w (on_claimed item w)
  interval_fires :
      (w : Worker) (n : ℕ) (now : JsString)
      → Has n w.intervals
      → Step d claim_lease_ms w (beat d claim_lease_ms now w)
  beat_answered :
      (w : Worker) (b : Beat) (before after : List Beat) (renewed : Bool)
      → w.beats ≡ before ++ b ∷ after
      → Step d claim_lease_ms w (answered renewed (record w { beats = before ++ after }))
  processor_returns : (w : Worker) → w.phase ≡ waiting → Step d claim_lease_ms w (leave w)
  callbacks_run : (w : Worker) → w.phase ≡ returned → Step d claim_lease_ms w (finish w)
  shutdown : (w : Worker) → Step d claim_lease_ms w (on_application_shutdown w)

-- Some steps after another
pub data Reaches (d : Dates) (claim_lease_ms : ℕ) : Worker → Worker → Type 0 where
  here : (w : Worker) → Reaches d claim_lease_ms w w
  then_step :
      (w v u : Worker)
      → Reaches d claim_lease_ms w v
      → Step d claim_lease_ms v u
      → Reaches d claim_lease_ms w u
