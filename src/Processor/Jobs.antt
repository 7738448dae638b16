-- ===== src/Processor/Jobs.antt =====
-- Any number of workers and clients on one store: each job is a submitted request or one call of
-- `processNextPendingRequest`, with the options of the worker that makes it.
use movie_reservation_servic.Prelude.{
  ℕ, ◌+◌, ◌*◌, ◌≤◌, ◌≡◌, refl, ap, ◌∙◌, sym, subst, some, Option, List, [], ◌∷◌, ◌++◌, JsString,
  length, length-append, arith,
}
use movie_reservation_servic.Prelude.JsMap.{get}
use movie_reservation_servic.Domain.Request.{ReservationRequest, max_safe_integer}
use movie_reservation_servic.Domain.Reservation.{Reservation}
use movie_reservation_servic.Work.{ObservabilityContext}
use movie_reservation_servic.Memory.Store.{save_request}
use movie_reservation_servic.Memory.Invariant.{IsWellFormed}
use movie_reservation_servic.Memory.Effect.{Command, run}
use movie_reservation_servic.Memory.Exclusive.{IsExclusive}
use movie_reservation_servic.Memory.Lifecycle.{IsTerminal}
use movie_reservation_servic.Memory.History.{run_all, run_all-IsWellFormed, run_all-IsTerminal}
use movie_reservation_servic.Memory.Bookings.{run_all-IsExclusive, run_all-reservation}
use movie_reservation_servic.Processor.World.{World, in_store, Ports, Options, ProcessingInput}
use movie_reservation_servic.Processor.Steps.{process_next}
use movie_reservation_servic.Processor.Runs.{Runs-command, Runs-weaken, run_all-append}
use movie_reservation_servic.Processor.Calls.{process_next-Runs}

pub data Job : Type 0 where
  submit : ReservationRequest → Option ObservabilityContext → Job
  work : Options → ProcessingInput → Job

module _ (ports : Ports) where
  -- The world after a job, whether it returned or threw.
  unfoldable pub run_job : Job → World → World
  run_job (submit r context) w = (in_store (save_request r context) w).1
  run_job (work options input) w = (process_next ports options input w).1

  unfoldable pub run_jobs : List Job → World → World
  run_jobs [] w = w
  run_jobs (j ∷ js) w = run_jobs js (run_job j w)

  -- The jobs' calls of the repository, in the order in which they reach the store.
  Calls : ℕ → World → World → Type 0
  Calls n w w' = (cs : List Command) × (length cs ≤ n) × (w'.store ≡ run_all ports.dates cs w.store)

  job-Calls : (j : Job) (w : World) → Calls 3 w (run_job j w)
  unfolding run_job Calls run
  job-Calls (submit r context) w =
      (Runs-weaken ports.dates 1 3 _ (omega arith) (
          Runs-command ports.dates (save_request r context) (Command.save r context)
            (λ s. refl))).at
        w
  job-Calls (work options input) w = (process_next-Runs ports options input).at w

  jobs-Calls : (js : List Job) (w : World) → Calls (3 * length js) w (run_jobs js w)
  unfolding run_jobs Calls run_all
  jobs-Calls [] w = ([], omega arith, refl)
  jobs-Calls (j ∷ js) w =
      let (cs, fits, same) = job-Calls j w in
      let (ds, fits', same') = jobs-Calls js (run_job j w) in
      (
        cs ++ ds,
        omega (arith, length-append cs ds),
        same' ∙ ap (run_all ports.dates ds) same ∙ sym (run_all-append ports.dates cs ds w.store),
      )

  -- Each job takes at most three sequence numbers.
  abbrev pub HasRoomFor : List Job → World → Type 0
  HasRoomFor js w = w.store.next_sequence + 3 * length js ≤ max_safe_integer

  module _ (js : List Job) (w : World) (h : IsWellFormed w.store) (room : HasRoomFor js w) where
    -- Whatever the workers and the clients do, and whatever the ports answer or throw, the store
    -- stays well formed.
    pub run_jobs-IsWellFormed : IsWellFormed (run_jobs js w).store
    unfolding Calls
    run_jobs-IsWellFormed =
        let (cs, fits, same) = jobs-Calls js w in
        subst IsWellFormed (sym same) (run_all-IsWellFormed ports.dates cs w.store h (omega arith))

    -- Whatever the workers and the clients do, no seat of a screening is reserved twice.
    pub run_jobs-IsExclusive :
        IsExclusive w.store.reservations → IsExclusive (run_jobs js w).store.reservations
    unfolding Calls
    run_jobs-IsExclusive x =
        let (cs, fits, same) = jobs-Calls js w in
        subst (λ s. IsExclusive s.reservations) (sym same)
          (run_all-IsExclusive ports.dates cs w.store h (omega arith) x)

    -- Whatever the workers and the clients do, a request that is CONFIRMED, REJECTED or FAILED
    -- stays as it is.
    pub run_jobs-IsTerminal :
        (k : JsString) (r : ReservationRequest)
        → get w.store.requests k ≡ some r
        → IsTerminal r.status
        → get (run_jobs js w).store.requests k ≡ some r
    unfolding Calls
    run_jobs-IsTerminal k r at t =
        let (cs, fits, same) = jobs-Calls js w in
        subst (λ s. get s.requests k ≡ some r) (sym same)
          (run_all-IsTerminal ports.dates k cs w.store r h (omega arith) at t)

    -- Whatever the workers and the clients do, a confirmed reservation stays as it is.
    pub run_jobs-reservation :
        (k : JsString) (r : Reservation)
        → get w.store.reservations k ≡ some r
        → get (run_jobs js w).store.reservations k ≡ some r
    unfolding Calls
    run_jobs-reservation k r at =
        let (cs, fits, same) = jobs-Calls js w in
        subst (λ s. get s.reservations k ≡ some r) (sym same)
          (run_all-reservation ports.dates cs w.store k r h (omega arith) at)
