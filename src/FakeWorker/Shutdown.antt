-- ===== src/FakeWorker/Shutdown.antt =====
-- Shutdowns and late answers in
-- src/di/movie-reservations/fake-reservation-request-worker.service.ts.
use movie_reservation_servic.Prelude.{
  ℕ, ◌≡◌, inl, inr, refl, ap, ◌∙◌, true, false, Option, none, some, [], ◌∷◌, ◌++◌, arith, filter,
  ok, JsString,
}
use movie_reservation_servic.Dates.{Dates, add_milliseconds}
use movie_reservation_servic.Work.{ClaimedReservationRequest}
use movie_reservation_servic.FakeWorker.{
  Worker, beat_of, waiting, created, disarm, clear_poll, clear_heartbeat, beat_for,
  clear_poll_timer, clear_heartbeat_timer, schedule_next_poll, on_application_bootstrap,
  on_application_shutdown, poll, on_claimed, beat, answered, leave, finish, Step, Reaches,
  timeout_fires, claim_made, interval_fires, beat_answered, processor_returns, callbacks_run,
  shutdown, here, then_step,
}
use movie_reservation_servic.FakeWorker.Invariant.{polling_in_turn}

clear_heartbeat-stopping : (o : Option ℕ) (w : Worker) → (clear_heartbeat o w).stopping ≡ w.stopping
clear_heartbeat-stopping none w = refl
clear_heartbeat-stopping (some m) w = refl

clear_poll-stopping : (o : Option ℕ) (w : Worker) → (clear_poll o w).stopping ≡ w.stopping
clear_poll-stopping none w = refl
clear_poll-stopping (some m) w = refl

beat_for-stopping :
    (d : Dates) (ms : ℕ) (now : JsString) (o : Option ClaimedReservationRequest) (w : Worker)
    → (beat_for d ms now o w).stopping ≡ w.stopping
beat_for-stopping d ms now none w = refl
beat_for-stopping d ms now (some item) w = refl

module _ (d : Dates) (claim_lease_ms : ℕ) where
  Step-stopping : (w v : Worker) → Step d claim_lease_ms w v → w.stopping ≡ true → v.stopping ≡ true
  unfolding poll on_claimed beat answered leave finish schedule_next_poll on_application_shutdown
      clear_heartbeat_timer clear_poll_timer
  Step-stopping _ _ (timeout_fires w n m) h = h
  Step-stopping _ _ (claim_made w item p) h = h
  Step-stopping _ _ (interval_fires w n now m) h =
      beat_for-stopping d claim_lease_ms now w.claimed_work_item w ∙ h
  Step-stopping _ _ (beat_answered w b before after true e) h = h
  Step-stopping _ _ (beat_answered w b before after false e) h =
      clear_heartbeat-stopping w.heartbeat_timer (record w { beats = before ++ after }) ∙ h
  Step-stopping _ _ (processor_returns w p) h = clear_heartbeat-stopping w.heartbeat_timer w ∙ h
  Step-stopping _ _ (callbacks_run w p) h = ground arith
  Step-stopping _ _ (shutdown w) h =
      clear_heartbeat-stopping
        (clear_poll w.poll_timer (record w { stopping = true })).heartbeat_timer
        (clear_poll w.poll_timer (record w { stopping = true }))
      ∙ clear_poll-stopping w.poll_timer (record w { stopping = true })

  Reaches-stopping :
      (w v : Worker) → Reaches d claim_lease_ms w v → w.stopping ≡ true → v.stopping ≡ true
  Reaches-stopping _ _ (here w) h = h
  Reaches-stopping _ _ (then_step w v u r s) h = Step-stopping v u s (Reaches-stopping w v r h)

  Reaches-trans :
      (w v u : Worker)
      → Reaches d claim_lease_ms w v
      → Reaches d claim_lease_ms v u
      → Reaches d claim_lease_ms w u
  Reaches-trans w _ _ r (here v) = r
  Reaches-trans w _ _ r (then_step v x u q s) = then_step w x u (Reaches-trans w v x r q) s

  -- After a shutdown has begun, no poll timer is armed any more, whatever happens then: a call in
  -- flight may end, and no other begins.
  pub shutdown_is_final :
      (w v : Worker)
      → Reaches d claim_lease_ms (on_application_bootstrap created) w
      → Reaches d claim_lease_ms (on_application_shutdown w) v
      → v.timeouts ≡ []
  unfolding on_application_shutdown clear_heartbeat_timer clear_poll_timer
  shutdown_is_final w v r q =
      let start = on_application_bootstrap created in
      let stopped = then_step start w (on_application_shutdown w) r (shutdown w) in
      let all = Reaches-trans start (on_application_shutdown w) v stopped q in
      let stops = Reaches-stopping (on_application_shutdown w) v q (
        clear_heartbeat-stopping
          (clear_poll w.poll_timer (record w { stopping = true })).heartbeat_timer
          (clear_poll w.poll_timer (record w { stopping = true }))
        ∙ clear_poll-stopping w.poll_timer (record w { stopping = true })) in
      elim (polling_in_turn d claim_lease_ms v all) [
        | inl stopped ↦ stopped.1
        | inr more ↦ elim more [
          | inl flying ↦ flying.1
          | inr (n, goes, free, mine, armed) ↦ absurd (ground arith)
        ]
      ]

  -- A heartbeat that is refused after its call has ended stops the heartbeats of the next call. For
  -- any two work items, and a time to which the lease can be added, the service reaches a state in
  -- which the second is being processed, its interval is armed, and the one heartbeat that waits for
  -- an answer is of the first; the refusal of that heartbeat leaves no interval armed, while the
  -- second is still being processed.
  pub late_refusal-no_interval :
      (first second : ClaimedReservationRequest) (now expires_at : JsString)
      → add_milliseconds d now claim_lease_ms ≡ ok expires_at
      → (w : Worker) × (v : Worker) × Reaches d claim_lease_ms (on_application_bootstrap created) w
        × (w.claimed_work_item ≡ some second)
        × (w.intervals ≡ 3 ∷ [])
        × (w.beats
            ≡ record { item = first; heartbeat_at = now; claim_expires_at = expires_at } ∷ [])
        × Step d claim_lease_ms w v
        × (v.phase ≡ waiting)
        × (v.claimed_work_item ≡ some second)
        × (v.intervals ≡ [])
  unfolding on_application_bootstrap schedule_next_poll poll on_claimed beat answered leave finish
      clear_heartbeat_timer disarm filter
  late_refusal-no_interval first second now expires_at h =
      let w₀ = on_application_bootstrap created in
      let w₁ = poll 0 w₀ in
      let w₂ = on_claimed first w₁ in
      let w₃ = beat d claim_lease_ms now w₂ in
      let w₄ = leave w₃ in
      let w₅ = finish w₄ in
      let w₆ = poll 2 w₅ in
      let w₇ = on_claimed second w₆ in
      let waits : w₇.beats
          ≡ record { item = first; heartbeat_at = now; claim_expires_at = expires_at } ∷ [] =
        ap (beat_of first now) h in
      (
        w₇,
        answered false (record w₇ { beats = [] }),
        then_step w₀ w₆ w₇
            (then_step w₀ w₅ w₆
              (then_step w₀ w₄ w₅
                (then_step w₀ w₃ w₄
                  (then_step w₀ w₂ w₃
                    (then_step w₀ w₁ w₂
                      (then_step w₀ w₀ w₁ (here w₀) (timeout_fires w₀ 0 (inl refl)))
                      (claim_made w₁ first refl))
                    (interval_fires w₂ 1 now (inl refl)))
                  (processor_returns w₃ refl))
                (callbacks_run w₄ refl))
              (timeout_fires w₅ 2 (inl refl)))
            (claim_made w₆ second refl),
        refl,
        refl,
        waits,
        beat_answered w₇
            (record { item = first; heartbeat_at = now; claim_expires_at = expires_at }) [] [] false
            waits,
        refl,
        refl,
        refl,
      )
