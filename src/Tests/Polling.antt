-- ===== src/Tests/Polling.antt =====
-- The theorems on the fake worker at concrete states.
use movie_reservation_servic.Prelude.{◌≡◌, inl, refl, some, [], ◌∷◌, ok}
use movie_reservation_servic.Dates.{add_milliseconds}
use movie_reservation_servic.FakeWorker.{
  Worker, waiting, created, on_application_bootstrap, on_application_shutdown, poll, Step, Reaches,
  timeout_fires, here, then_step,
}
use movie_reservation_servic.FakeWorker.Invariant.{Polls, polling_in_turn}
use movie_reservation_servic.FakeWorker.Shutdown.{shutdown_is_final, late_refusal-no_interval}
use movie_reservation_servic.Tests.Fixtures.{dates}
use movie_reservation_servic.Tests.Postgres.{item}

abbrev started : Worker
started = on_application_bootstrap created

first_poll : Reaches dates 10 started (poll 0 started)
unfolding on_application_bootstrap
first_poll =
    then_step started started (poll 0 started) (here started) (timeout_fires started 0 (inl refl))

polling_in_turn_example : Polls (poll 0 started)
polling_in_turn_example = polling_in_turn dates 10 (poll 0 started) first_poll

shutdown_is_final_example : (on_application_shutdown (poll 0 started)).timeouts ≡ []
shutdown_is_final_example =
    shutdown_is_final dates 10 (poll 0 started) (on_application_shutdown (poll 0 started))
      first_poll (here (on_application_shutdown (poll 0 started)))

adds : add_milliseconds dates (5 ∷ []) 10 ≡ ok (15 ∷ [])
unfolding add_milliseconds
adds = refl

late_refusal-no_interval_example :
    (w : Worker) × (v : Worker) × Reaches dates 10 started w
    × (w.claimed_work_item ≡ some (record item { sequence = 2 }))
    × (w.intervals ≡ 3 ∷ [])
    × (w.beats ≡ record { item = item; heartbeat_at = 5 ∷ []; claim_expires_at = 15 ∷ [] } ∷ [])
    × Step dates 10 w v
    × (v.phase ≡ waiting)
    × (v.claimed_work_item ≡ some (record item { sequence = 2 }))
    × (v.intervals ≡ [])
late_refusal-no_interval_example =
    late_refusal-no_interval dates 10 item (record item { sequence = 2 }) (5 ∷ []) (15 ∷ []) adds
