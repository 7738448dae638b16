-- ===== src/FakeWorker/Invariant.antt =====
-- The invariant of the polling loop of
-- src/di/movie-reservations/fake-reservation-request-worker.service.ts, and what follows from it.
use movie_reservation_servic.Prelude.{
  ℕ, ◌≡◌, ◌↔◌, ◌⊎◌, inl, inr, refl, subst, Bool, true, false, Option, none, some, [], ◌∷◌, ◌++◌,
  arith, Has, filter, ==_iff, JsString, Bool-cases, Option-cases,
}
use movie_reservation_servic.Dates.{Dates}
use movie_reservation_servic.Work.{ClaimedReservationRequest}
use movie_reservation_servic.FakeWorker.{
  Worker, idle, waiting, returned, created, disarm, clear_poll, clear_heartbeat, beat_for,
  clear_poll_timer, clear_heartbeat_timer, schedule_next_poll, on_application_bootstrap,
  on_application_shutdown, poll, on_claimed, beat, answered, leave, finish, Step, Reaches,
  timeout_fires, claim_made, interval_fires, beat_answered, processor_returns, callbacks_run,
  shutdown, here, then_step,
}

-- The poll timers: one is armed while nothing is in flight, and none in flight or after a shutdown.
abbrev pub Polls : Worker → Type 0
Polls w =
    ((w.stopping ≡ true) × (w.timeouts ≡ []))
    ⊎ ((w.in_flight ≡ true) × (w.timeouts ≡ []))
    ⊎ ((n : ℕ) × (w.stopping ≡ false)
        × (w.in_flight ≡ false)
        × (w.poll_timer ≡ some n)
        × (w.timeouts ≡ n ∷ []))

-- The heartbeat timers: at most one, the service's own, while the processor works.
abbrev Beats : Worker → Type 0
Beats w =
    (w.intervals ≡ [])
    ⊎ ((n : ℕ) × (w.phase ≡ waiting) × (w.heartbeat_timer ≡ some n) × (w.intervals ≡ n ∷ []))

pub record IsOrderly (w : Worker) : Type 0 where
  pub polls : Polls w
  pub beats : Beats w
  pub busy : (w.phase ≡ idle) ↔ (w.in_flight ≡ false)

disarm_self : (n : ℕ) → disarm n (n ∷ []) ≡ []
unfolding disarm filter
disarm_self n = ground (arith, ==_iff n n)

disarm-nil : (n : ℕ) → disarm n [] ≡ []
unfolding disarm filter
disarm-nil n = refl

clear_heartbeat_timer-intervals : (w : Worker) → Beats w → (clear_heartbeat_timer w).intervals ≡ []
unfolding clear_heartbeat_timer
clear_heartbeat_timer-intervals w h = elim (Option-cases w.heartbeat_timer) [
  | inl unset ↦ elim h [ inl none_armed ↦ ground arith | inr armed ↦ absurd (ground arith) ]
  | inr (m, set) ↦ elim h [
    | inl none_armed ↦ rw (set, none_armed) (disarm-nil m)
    | inr (n, p, mine, armed) ↦ ground (arith, disarm_self n)
  ]
]

-- Clearing the heartbeat timer touches nothing else that the invariant reads.
clear_heartbeat-IsOrderly :
    (o : Option ℕ) (w : Worker)
    → w.heartbeat_timer ≡ o
    → IsOrderly w
    → IsOrderly (clear_heartbeat o w)
clear_heartbeat-IsOrderly none w set h = h
clear_heartbeat-IsOrderly (some m) w set h = record {
  polls = h.polls;
  beats = inl (elim h.beats [
    | inl none_armed ↦ rw none_armed (disarm-nil m)
    | inr (n, p, mine, armed) ↦ ground (arith, disarm_self n)
  ]);
  busy = h.busy;
}

clear_heartbeat_timer-IsOrderly : (w : Worker) → IsOrderly w → IsOrderly (clear_heartbeat_timer w)
unfolding clear_heartbeat_timer
clear_heartbeat_timer-IsOrderly w h = clear_heartbeat-IsOrderly w.heartbeat_timer w refl h

poll-IsOrderly : (w : Worker) (n : ℕ) → Has n w.timeouts → IsOrderly w → IsOrderly (poll n w)
unfolding poll
poll-IsOrderly w n m h = elim h.polls [
  | inl (stops, empty) ↦ absurd (subst (Has n) empty m)
  | inr more ↦ elim more [
    | inl (flying, empty) ↦ absurd (subst (Has n) empty m)
    | inr (k, goes, free, mine, armed) ↦ record {
      polls = inr (
          inl (
            refl,
            elim (subst (Has n) armed m) [
              | inl e ↦ rw (armed, e) (disarm_self n)
              | inr q ↦ absurd q
            ],
          ));
      beats = inr (
        w.next_timer,
        refl,
        refl,
        elim h.beats [
          | inl none_armed ↦ rw none_armed refl
          | inr (j, p, q, r) ↦ absurd (ground (arith, h.busy.1 free))
        ],
      );
      busy = (λ e. absurd (ground arith), λ e. absurd (ground arith));
    }
  ]
]

clear_heartbeat-in_flight :
    (o : Option ℕ) (w : Worker) → (clear_heartbeat o w).in_flight ≡ w.in_flight
clear_heartbeat-in_flight none w = refl
clear_heartbeat-in_flight (some m) w = refl

leave-IsOrderly : (w : Worker) → w.phase ≡ waiting → IsOrderly w → IsOrderly (leave w)
unfolding leave clear_heartbeat_timer
leave-IsOrderly w p h =
    let c = clear_heartbeat_timer-IsOrderly w h in
    record {
      polls = c.polls;
      beats = inl (clear_heartbeat_timer-intervals w h.beats);
      busy = (
        λ e. absurd (ground arith),
        λ e. absurd (ground (arith, clear_heartbeat-in_flight w.heartbeat_timer w, h.busy.1)),
      );
    }

finish-IsOrderly : (w : Worker) → w.phase ≡ returned → IsOrderly w → IsOrderly (finish w)
unfolding finish schedule_next_poll
finish-IsOrderly w p h =
    let empty : w.timeouts ≡ [] = elim h.polls [
      | inl q ↦ q.1
      | inr more ↦ elim more [
        | inl q ↦ q.1
        | inr (k, goes, free, mine, armed) ↦ absurd (ground (arith, h.busy.1 free))
      ]
    ] in
    let quiet : w.intervals ≡ [] = elim h.beats [
      | inl q ↦ q
      | inr (n, q, r, s) ↦ absurd (ground arith)
    ] in
    elim (Bool-cases w.stopping) [
      | inl stops ↦
          rw stops
            (record { polls = inl (refl, empty); beats = inl quiet; busy = (λ e. refl, λ e. refl) })
      | inr goes ↦ rw goes (record {
        polls = inr (inr (w.next_timer, refl, refl, refl, rw empty refl));
        beats = inl quiet;
        busy = (λ e. refl, λ e. refl);
      })
    ]

clear_poll-IsOrderly :
    (o : Option ℕ) (w : Worker)
    → w.poll_timer ≡ o
    → IsOrderly w
    → IsOrderly (clear_poll o (record w { stopping = true }))
clear_poll-IsOrderly none w set h = record {
  polls = inl (
    refl,
    elim h.polls [
      | inl q ↦ q.1
      | inr more ↦ elim more [
        | inl q ↦ q.1
        | inr (k, goes, free, mine, armed) ↦ absurd (ground arith)
      ]
    ],
  );
  beats = h.beats;
  busy = h.busy;
}
clear_poll-IsOrderly (some m) w set h = record {
  polls = inl (
    refl,
    elim h.polls [
      | inl q ↦ rw q.1 (disarm-nil m)
      | inr more ↦ elim more [
        | inl q ↦ rw q.1 (disarm-nil m)
        | inr (k, goes, free, mine, armed) ↦ ground (arith, disarm_self k)
      ]
    ],
  );
  beats = h.beats;
  busy = h.busy;
}

shutdown-IsOrderly : (w : Worker) → IsOrderly w → IsOrderly (on_application_shutdown w)
unfolding on_application_shutdown clear_poll_timer
shutdown-IsOrderly w h =
    clear_heartbeat_timer-IsOrderly (clear_poll w.poll_timer (record w { stopping = true }))
      (clear_poll-IsOrderly w.poll_timer w refl h)

beat_for-IsOrderly :
    (d : Dates) (ms : ℕ) (now : JsString) (o : Option ClaimedReservationRequest) (w : Worker)
    → IsOrderly w
    → IsOrderly (beat_for d ms now o w)
beat_for-IsOrderly d ms now none w h = h
beat_for-IsOrderly d ms now (some item) w h = record {
  polls = h.polls;
  beats = h.beats;
  busy = h.busy;
}

answered-IsOrderly : (renewed : Bool) (w : Worker) → IsOrderly w → IsOrderly (answered renewed w)
unfolding answered
answered-IsOrderly true w h = h
answered-IsOrderly false w h = clear_heartbeat_timer-IsOrderly w h

bootstrap-IsOrderly : IsOrderly (on_application_bootstrap created)
unfolding on_application_bootstrap schedule_next_poll
bootstrap-IsOrderly = record {
  polls = inr (inr (0, refl, refl, refl, refl));
  beats = inl refl;
  busy = (λ e. refl, λ e. refl);
}

module _ (d : Dates) (claim_lease_ms : ℕ) where
  Step-IsOrderly : (w v : Worker) → Step d claim_lease_ms w v → IsOrderly w → IsOrderly v
  unfolding beat on_claimed
  Step-IsOrderly _ _ (timeout_fires w n m) h = poll-IsOrderly w n m h
  Step-IsOrderly _ _ (claim_made w item p) h = record {
    polls = h.polls;
    beats = h.beats;
    busy = h.busy;
  }
  Step-IsOrderly _ _ (interval_fires w n now m) h =
      beat_for-IsOrderly d claim_lease_ms now w.claimed_work_item w h
  Step-IsOrderly _ _ (beat_answered w b before after renewed e) h =
      answered-IsOrderly renewed (record w { beats = before ++ after })
        (record { polls = h.polls; beats = h.beats; busy = h.busy })
  Step-IsOrderly _ _ (processor_returns w p) h = leave-IsOrderly w p h
  Step-IsOrderly _ _ (callbacks_run w p) h = finish-IsOrderly w p h
  Step-IsOrderly _ _ (shutdown w) h = shutdown-IsOrderly w h

  pub Reaches-IsOrderly : (w v : Worker) → Reaches d claim_lease_ms w v → IsOrderly w → IsOrderly v
  Reaches-IsOrderly _ _ (here w) h = h
  Reaches-IsOrderly _ _ (then_step w v u r s) h = Step-IsOrderly v u s (Reaches-IsOrderly w v r h)

  -- The service polls in turn. Whatever the timers, the processor, the repository and the
  -- application do after the start: a shutdown has begun, or a call is in flight, and then no poll
  -- timer is armed; or neither is the case, and then exactly one is, the service's own, so that the
  -- loop goes on.
  pub polling_in_turn :
      (w : Worker) → Reaches d claim_lease_ms (on_application_bootstrap created) w → Polls w
  polling_in_turn w r =
      (Reaches-IsOrderly (on_application_bootstrap created) w r bootstrap-IsOrderly).polls
