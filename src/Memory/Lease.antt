-- ===== src/Memory/Lease.antt =====
-- The lease of a claim, and the calls of others before it ends.
use movie_reservation_servic.Prelude.{
  ℕ, ◌≤◌, ◌<◌, ◌≡◌, ◌≢◌, ap, ◌∙◌, sym, refl, subst, none, some, List, [], ◌∷◌, JsString, arith,
  Bool-cases, inl, inr, Option-cases, All,
}
use mathlib.Core.Path.{subst₂}
use mathlib.Core.Option.{some-injective}
use movie_reservation_servic.Prelude.JsMap.{get, set, has, values, get-set_ne}
use movie_reservation_servic.Dates.{Dates}
use movie_reservation_servic.Domain.Request.{max_safe_integer, processing, ReservationRequest}
use movie_reservation_servic.Domain.Reservation.{Reservation}
use movie_reservation_servic.Work.{ClaimedReservationRequest, ConfirmedAttempt, ClaimInput}
use movie_reservation_servic.Memory.Store.{WorkMetadata, Store}
use movie_reservation_servic.Memory.Invariant.{IsWellFormed}
use movie_reservation_servic.Memory.Settle.{first_conflict, confirm_claimed}
use movie_reservation_servic.Memory.Save.{save_request_new, save_request_known}
use movie_reservation_servic.Memory.Eligible.{IsEligible}
use movie_reservation_servic.Memory.Fifo.{claim_next-cases, IsNext, is_spent, claim_result}
use movie_reservation_servic.Memory.Owned.{
  IsOwned, require_claimed-cases, reject_claimed_lem, fail_claimed_lem, release_claimed_lem,
  confirm_claimed_known, confirm_claimed_free, confirm_claimed_taken, reject_claimed_lost,
  fail_claimed_lost, release_claimed_lost, confirm_claimed_lost,
}
use movie_reservation_servic.Memory.Heartbeat.{IsHeld, heartbeat-cases, heartbeat_of_IsHeld}
use movie_reservation_servic.Memory.Effect.{Command, run}
use movie_reservation_servic.Memory.Runs.{run-Effect}
use movie_reservation_servic.Memory.Lifecycle.{Effect-IsWellFormed}
use movie_reservation_servic.Memory.History.{run_all, HasRoom, run-HasRoom}

module _ (d : Dates) (k token : JsString) (end : ℕ) where
  -- The request at `k` is claimed under `token` until the time `end`.
  pub record IsLeased (s : Store) (r : ReservationRequest) (m : WorkMetadata) : Type 0 where
    pub stored : get s.requests k ≡ some r
    pub tracked : get s.work_metadata k ≡ some m
    pub status : r.status ≡ processing
    pub claim_token : m.claim_token ≡ some token
    pub expires_at : JsString
    pub claim_expires_at : m.claim_expires_at ≡ some expires_at
    pub time : d.get_time expires_at ≡ some end

  -- A call that is not the holder's: a claim before the end of the lease, or the work of another
  -- token.
  abbrev pub IsForeign : Command → Type 0
  IsForeign (Command.save r context) = Unit
  IsForeign (Command.claim input) =
      (now : ℕ) × (d.get_time input.claimed_at ≡ some now) × (now < end)
  IsForeign (Command.heartbeat c at expires_at) = c.claim_token ≢ token
  IsForeign (Command.confirm c reservation a) = c.claim_token ≢ token
  IsForeign (Command.reject c a) = c.claim_token ≢ token
  IsForeign (Command.release c a) = c.claim_token ≢ token
  IsForeign (Command.fail c a) = c.claim_token ≢ token

  module _ (s : Store) (h : IsWellFormed s) (r : ReservationRequest) (m : WorkMetadata)
      (lease : IsLeased s r m) where
    -- Writes at another key keep the lease.
    IsLeased-elsewhere :
        (t : Store) (j : JsString) (q : ReservationRequest) (n : WorkMetadata)
        → j ≢ k
        → t.requests ≡ set s.requests j q
        → t.work_metadata ≡ set s.work_metadata j n
        → IsLeased t r m
    IsLeased-elsewhere t j q n ne er em = record {
      stored = ap (λ x. get x k) er ∙ get-set_ne s.requests j q k ne ∙ lease.stored;
      tracked = ap (λ x. get x k) em ∙ get-set_ne s.work_metadata j n k ne ∙ lease.tracked;
      status = lease.status;
      claim_token = lease.claim_token;
      expires_at = lease.expires_at;
      claim_expires_at = lease.claim_expires_at;
      time = lease.time;
    }

    not-IsEligible :
        (input : ClaimInput) → IsForeign (Command.claim input) → ¬ IsEligible d input r m
    not-IsEligible input (now, at, early) good = elim good [
      | inl (p, few) ↦ cc (p, lease.status)
      | inr (p, inl unset) ↦ cc (unset, lease.claim_expires_at)
      | inr (p, inr (e, t, n, at_e, time_e, time_n, le)) ↦
          let same = some-injective e lease.expires_at (sym at_e ∙ lease.claim_expires_at) in
          let t_end = some-injective t end (sym time_e ∙ ap d.get_time same ∙ lease.time) in
          let n_now = some-injective n now (sym time_n ∙ at) in absurd (omega arith)
    ]

    next-elsewhere :
        (input : ClaimInput) (q : ReservationRequest) (n : WorkMetadata)
        → IsForeign (Command.claim input)
        → IsNext d input s q n
        → q.id ≢ k
    next-elsewhere input q n foreign next here =
        let q_r = some-injective q r (sym next.stored ∙ ap (get s.requests) here ∙ lease.stored) in
        let n_m =
          some-injective n m (sym next.tracked ∙ ap (get s.work_metadata) here ∙ lease.tracked) in
        not-IsEligible input foreign (subst₂ (IsEligible d input) q_r n_m next.eligible)

    owned-elsewhere :
        (c : ClaimedReservationRequest) (q : ReservationRequest) (n : WorkMetadata)
        → c.claim_token ≢ token
        → IsOwned s c q n
        → q.id ≢ k
    owned-elsewhere c q n foreign o here =
        let there = sym (h.keyed c.reservation_request.id q o.stored) ∙ here in
        let n_m =
          some-injective n m (sym o.tracked ∙ ap (get s.work_metadata) there ∙ lease.tracked) in
        foreign (
          some-injective c.claim_token token
            (sym o.claim_token ∙ ap (λ (w : WorkMetadata). w.claim_token) n_m ∙ lease.claim_token))

    -- A call whose result is known, and writes at another key or not at all.
    by_result :
        {A : Type 0} (x : A × Store) (a : A) (t : Store)
        → x ≡ (a, t)
        → IsLeased t r m
        → IsLeased x.1 r m
    by_result x a t e l = subst (λ y. IsLeased y.1 r m) (sym e) l

    saved-elsewhere : (q : ReservationRequest) → get s.requests q.id ≡ none → q.id ≢ k
    saved-elsewhere q free here = cc (free, lease.stored, here)

    held-elsewhere :
        (c : ClaimedReservationRequest) (q : ReservationRequest) (n : WorkMetadata)
        → c.claim_token ≢ token
        → IsHeld s c q n
        → q.id ≢ k
    held-elsewhere c q n foreign o here =
        let n_m =
          some-injective n m (sym o.tracked ∙ ap (get s.work_metadata) here ∙ lease.tracked) in
        foreign (
          some-injective c.claim_token token
            (sym o.claim_token ∙ ap (λ (w : WorkMetadata). w.claim_token) n_m ∙ lease.claim_token))

    claim_result-IsLeased :
        (input : ClaimInput) (q : ReservationRequest) (n : WorkMetadata)
        → q.id ≢ k
        → IsLeased (claim_result d input s q n).1 r m
    claim_result-IsLeased input q n ne = elim (Bool-cases (is_spent d input q n)) [
      | inl spent ↦ rw spent (IsLeased-elsewhere _ q.id _ _ ne refl refl)
      | inr live ↦ rw live (IsLeased-elsewhere _ q.id _ _ ne refl refl)
    ]

    confirm_owned-IsLeased :
        (c : ClaimedReservationRequest) (reservation : Reservation) (a : ConfirmedAttempt)
        (q : ReservationRequest) (n : WorkMetadata)
        → c.claim_token ≢ token
        → IsOwned s c q n
        → IsLeased (confirm_claimed c reservation a s).1 r m
    confirm_owned-IsLeased c reservation a q n foreign o =
        let named = h.keyed c.reservation_request.id q o.stored in
        let ne = owned-elsewhere c q n foreign o in
        elim (Bool-cases (has s.reservations reservation.id)) [
          | inl known ↦
              by_result _ _ s (confirm_claimed_known c s q n o named reservation a known) lease
          | inr new ↦
              elim (Option-cases (
                first_conflict reservation.screening_id reservation.seat_ids
                  (values s.reservations))) [
                    | inl free ↦
                        by_result _ _ _
                          (confirm_claimed_free c s q n o named reservation a new free)
                          (IsLeased-elsewhere _ q.id _ _ ne refl refl)
                    | inr (conflict, taken) ↦
                        by_result _ _ _
                          (confirm_claimed_taken c s q n o named reservation a conflict new taken)
                          (IsLeased-elsewhere _ q.id _ _ ne refl refl)
                  ]
        ]

    run-IsLeased :
        (command : Command)
        → s.next_sequence ≤ max_safe_integer
        → IsForeign command
        → IsLeased (run d command s) r m
    unfolding run
    run-IsLeased (Command.save q context) room foreign = elim (Option-cases (get s.requests q.id)) [
      | inl free ↦
          by_result _ _ _ (save_request_new q context s free h.positive room)
            (IsLeased-elsewhere _ q.id _ _ (saved-elsewhere q free) refl refl)
      | inr (known, e) ↦ by_result _ _ s (save_request_known q context s known e) lease
    ]
    run-IsLeased (Command.claim input) room foreign = elim (claim_next-cases d input s h) [
      | inl (q, n, next, e) ↦
          subst (λ y. IsLeased y.1 r m) (sym e)
            (claim_result-IsLeased input q n (next-elsewhere input q n foreign next))
      | inr (idle, e) ↦ by_result _ _ s e lease
    ]
    run-IsLeased (Command.heartbeat c at expires_at) room foreign =
        elim (heartbeat-cases c at expires_at s h) [
          | inl (q, n, o) ↦ by_result _ _ _ (heartbeat_of_IsHeld c at expires_at s q n o) (record {
            stored = lease.stored;
            tracked =
                get-set_ne s.work_metadata q.id _ k (held-elsewhere c q n foreign o)
                ∙ lease.tracked;
            status = lease.status;
            claim_token = lease.claim_token;
            expires_at = lease.expires_at;
            claim_expires_at = lease.claim_expires_at;
            time = lease.time;
          })
          | inr e ↦ by_result _ _ s e lease
        ]
    run-IsLeased (Command.confirm c reservation a) room foreign = elim (require_claimed-cases c s) [
      | inl (q, n, o) ↦ confirm_owned-IsLeased c reservation a q n foreign o
      | inr (e, lost) ↦ by_result _ _ s (confirm_claimed_lost c s e lost reservation a) lease
    ]
    run-IsLeased (Command.reject c a) room foreign = elim (require_claimed-cases c s) [
      | inl (q, n, o) ↦
          by_result _ _ _ (reject_claimed_lem c s q n o (h.keyed _ q o.stored) a)
            (IsLeased-elsewhere _ q.id _ _ (owned-elsewhere c q n foreign o) refl refl)
      | inr (e, lost) ↦ by_result _ _ s (reject_claimed_lost c s e lost a) lease
    ]
    run-IsLeased (Command.release c a) room foreign = elim (require_claimed-cases c s) [
      | inl (q, n, o) ↦
          by_result _ _ _ (release_claimed_lem c s q n o (h.keyed _ q o.stored) a)
            (IsLeased-elsewhere _ q.id _ _ (owned-elsewhere c q n foreign o) refl refl)
      | inr (e, lost) ↦ by_result _ _ s (release_claimed_lost c s e lost a) lease
    ]
    run-IsLeased (Command.fail c a) room foreign = elim (require_claimed-cases c s) [
      | inl (q, n, o) ↦
          by_result _ _ _ (fail_claimed_lem c s q n o (h.keyed _ q o.stored) a)
            (IsLeased-elsewhere _ q.id _ _ (owned-elsewhere c q n foreign o) refl refl)
      | inr (e, lost) ↦ by_result _ _ s (fail_claimed_lost c s e lost a) lease
    ]

  -- Whatever other workers do before the lease ends, the claimed request and its metadata stay.
  pub run_all-IsLeased :
      (cs : List Command) (s : Store) (r : ReservationRequest) (m : WorkMetadata)
      → IsWellFormed s
      → HasRoom cs s
      → IsLeased s r m
      → All IsForeign cs
      → IsLeased (run_all d cs s) r m
  unfolding run_all
  run_all-IsLeased [] s r m h room lease foreign = lease
  run_all-IsLeased (c ∷ cs) s r m h room lease (f, fs) =
      run_all-IsLeased cs (run d c s) r m (Effect-IsWellFormed (run-Effect d c s h (omega arith)) h)
        (run-HasRoom d c cs s h room) (run-IsLeased s h r m lease c (omega arith) f) fs
