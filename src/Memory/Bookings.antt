-- ===== src/Memory/Bookings.antt =====
-- What the calls of the adapters do to the confirmed reservations.
use movie_reservation_servic.Prelude.{
  ◌≤◌, ◌≡◌, ap, ◌∙◌, sym, refl, subst, false, none, some, List, [], ◌∷◌, JsString, ===_iff, arith,
  Bool-cases, inl, inr, Option-cases,
}
use movie_reservation_servic.Prelude.JsMap.{get, set, has, values, get-set}
use movie_reservation_servic.Dates.{Dates}
use movie_reservation_servic.Domain.Request.{max_safe_integer, ReservationRequest}
use movie_reservation_servic.Domain.Reservation.{Reservation}
use movie_reservation_servic.Work.{ClaimedReservationRequest, ConfirmedAttempt, ClaimInput}
use movie_reservation_servic.Memory.Store.{WorkMetadata, Store}
use movie_reservation_servic.Memory.Invariant.{IsWellFormed}
use movie_reservation_servic.Memory.Settle.{first_conflict, confirm_claimed}
use movie_reservation_servic.Memory.Save.{save_request_new, save_request_known}
use movie_reservation_servic.Memory.Fifo.{claim_next-cases, is_spent, claim_result}
use movie_reservation_servic.Memory.Owned.{
  IsOwned, require_claimed-cases, reject_claimed_lem, fail_claimed_lem, release_claimed_lem,
  confirm_claimed_known, confirm_claimed_free, confirm_claimed_taken, reject_claimed_lost,
  fail_claimed_lost, release_claimed_lost, confirm_claimed_lost,
}
use movie_reservation_servic.Memory.Heartbeat.{heartbeat-cases, heartbeat_of_IsHeld}
use movie_reservation_servic.Memory.Effect.{Command, run}
use movie_reservation_servic.Memory.Runs.{run-Effect}
use movie_reservation_servic.Memory.Lifecycle.{Effect-IsWellFormed}
use movie_reservation_servic.Memory.History.{run_all, HasRoom, run-HasRoom}
use movie_reservation_servic.Memory.Exclusive.{IsExclusive, set-IsExclusive}

-- The reservations stay, or one is added under a new id, and it meets no other.
data Booking (s t : Store) : Type 0 where
  none_added : t.reservations ≡ s.reservations → Booking s t
  added :
      (r : Reservation)
      → has s.reservations r.id ≡ false
      → first_conflict r.screening_id r.seat_ids (values s.reservations) ≡ none
      → t.reservations ≡ set s.reservations r.id r
      → Booking s t

kept :
    {A : Type 0} (x : A × Store) (a : A) (s t : Store)
    → x ≡ (a, t)
    → t.reservations ≡ s.reservations
    → Booking s x.1
kept x a s t e same = none_added (ap (λ y. y.1.reservations) e ∙ same)

module _ (s : Store) (h : IsWellFormed s) where
  claim_result-reservations :
      (d : Dates) (input : ClaimInput) (r : ReservationRequest) (m : WorkMetadata)
      → (claim_result d input s r m).1.reservations ≡ s.reservations
  claim_result-reservations d input r m = elim (Bool-cases (is_spent d input r m)) [
    | inl spent ↦ rw spent
    | inr held ↦ rw held
  ]

  module _ (c : ClaimedReservationRequest) (reservation : Reservation) (a : ConfirmedAttempt) where
    confirm_owned-Booking :
        (r : ReservationRequest) (m : WorkMetadata)
        → IsOwned s c r m
        → Booking s (confirm_claimed c reservation a s).1
    confirm_owned-Booking r m o =
        let named = h.keyed c.reservation_request.id r o.stored in
        elim (Bool-cases (has s.reservations reservation.id)) [
          | inl known ↦
              kept _ _ s s (confirm_claimed_known c s r m o named reservation a known) refl
          | inr new ↦
              elim (Option-cases (
                first_conflict reservation.screening_id reservation.seat_ids
                  (values s.reservations))) [
                    | inl free ↦ added reservation new free (
                        ap (λ y. y.1.reservations)
                          (confirm_claimed_free c s r m o named reservation a new free))
                    | inr (conflict, taken) ↦
                        kept _ _ s _
                          (confirm_claimed_taken c s r m o named reservation a conflict new taken)
                          refl
                  ]
        ]

    confirm_claimed-Booking : Booking s (confirm_claimed c reservation a s).1
    confirm_claimed-Booking = elim (require_claimed-cases c s) [
      | inl (r, m, o) ↦ confirm_owned-Booking r m o
      | inr (e, lost) ↦ kept _ _ s s (confirm_claimed_lost c s e lost reservation a) refl
    ]

run-Booking :
    (d : Dates) (command : Command) (s : Store)
    → IsWellFormed s
    → s.next_sequence ≤ max_safe_integer
    → Booking s (run d command s)
unfolding run
run-Booking d (Command.save r context) s h room = elim (Option-cases (get s.requests r.id)) [
  | inl free ↦ kept _ _ s _ (save_request_new r context s free h.positive room) refl
  | inr (known, e) ↦ kept _ _ s s (save_request_known r context s known e) refl
]
run-Booking d (Command.claim input) s h room = elim (claim_next-cases d input s h) [
  | inl (r, m, next, e) ↦
      none_added (ap (λ y. y.1.reservations) e ∙ claim_result-reservations s h d input r m)
  | inr (idle, e) ↦ kept _ _ s s e refl
]
run-Booking d (Command.heartbeat c at expires_at) s h room =
    elim (heartbeat-cases c at expires_at s h) [
      | inl (r, m, o) ↦ kept _ _ s _ (heartbeat_of_IsHeld c at expires_at s r m o) refl
      | inr e ↦ kept _ _ s s e refl
    ]
run-Booking d (Command.confirm c reservation a) s h room =
    confirm_claimed-Booking s h c reservation a
run-Booking d (Command.reject c a) s h room = elim (require_claimed-cases c s) [
  | inl (r, m, o) ↦ kept _ _ s _ (reject_claimed_lem c s r m o (h.keyed _ r o.stored) a) refl
  | inr (e, lost) ↦ kept _ _ s s (reject_claimed_lost c s e lost a) refl
]
run-Booking d (Command.release c a) s h room = elim (require_claimed-cases c s) [
  | inl (r, m, o) ↦ kept _ _ s _ (release_claimed_lem c s r m o (h.keyed _ r o.stored) a) refl
  | inr (e, lost) ↦ kept _ _ s s (release_claimed_lost c s e lost a) refl
]
run-Booking d (Command.fail c a) s h room = elim (require_claimed-cases c s) [
  | inl (r, m, o) ↦ kept _ _ s _ (fail_claimed_lem c s r m o (h.keyed _ r o.stored) a) refl
  | inr (e, lost) ↦ kept _ _ s s (fail_claimed_lost c s e lost a) refl
]

Booking-IsExclusive :
    {s t : Store} → Booking s t → IsExclusive s.reservations → IsExclusive t.reservations
Booking-IsExclusive (none_added e) h = subst IsExclusive (sym e) h
Booking-IsExclusive {s} (added r new free e) h =
    subst IsExclusive (sym e) (set-IsExclusive s.reservations r free h)

Booking-get :
    {s t : Store} (k : JsString) (r : Reservation)
    → Booking s t
    → get s.reservations k ≡ some r
    → get t.reservations k ≡ some r
unfolding has
Booking-get k r (none_added e) at = ap (λ m. get m k) e ∙ at
Booking-get {s} k r (added q new free e) at =
    ap (λ m. get m k) e ∙ ground (arith, get-set s.reservations q.id q k, ===_iff q.id k)

module _ (d : Dates) where
  -- No sequence of calls reserves a seat of a screening twice.
  pub run_all-IsExclusive :
      (cs : List Command) (s : Store)
      → IsWellFormed s
      → HasRoom cs s
      → IsExclusive s.reservations
      → IsExclusive (run_all d cs s).reservations
  unfolding run_all
  run_all-IsExclusive [] s h room x = x
  run_all-IsExclusive (c ∷ cs) s h room x =
      run_all-IsExclusive cs (run d c s) (Effect-IsWellFormed (run-Effect d c s h (omega arith)) h)
        (run-HasRoom d c cs s h room) (Booking-IsExclusive (run-Booking d c s h (omega arith)) x)

  -- A confirmed reservation is never changed or removed.
  pub run_all-reservation :
      (cs : List Command) (s : Store) (k : JsString) (r : Reservation)
      → IsWellFormed s
      → HasRoom cs s
      → get s.reservations k ≡ some r
      → get (run_all d cs s).reservations k ≡ some r
  unfolding run_all
  run_all-reservation [] s k r h room at = at
  run_all-reservation (c ∷ cs) s k r h room at =
      run_all-reservation cs (run d c s) k r
        (Effect-IsWellFormed (run-Effect d c s h (omega arith)) h) (run-HasRoom d c cs s h room)
        (Booking-get k r (run-Booking d c s h (omega arith)) at)
