-- ===== src/Memory/Runs.antt =====
-- The effects of the calls of the adapters.
use movie_reservation_servic.Prelude.{
  ◌≤◌, ◌≡◌, sym, refl, subst, Option, some, JsString, arith, Bool-cases, inl, inr, Option-cases,
}
use movie_reservation_servic.Prelude.JsMap.{get, has, values}
use movie_reservation_servic.Dates.{Dates}
use movie_reservation_servic.Domain.Request.{
  ReservationRequestStatus, processing, requested, confirmed, rejected, failed, ReservationRequest,
  max_safe_integer,
}
use movie_reservation_servic.Domain.Reservation.{Reservation}
use movie_reservation_servic.Work
use movie_reservation_servic.Work.{
  ObservabilityContext, ClaimedReservationRequest, ClaimInput, ConfirmedAttempt, RejectedAttempt,
  FailedAttempt, ProcessingAttempt,
}
use movie_reservation_servic.Memory.Store.{WorkMetadata, Store, save_request}
use movie_reservation_servic.Memory.Invariant.{IsWellFormed}
use movie_reservation_servic.Memory.Metadata.{unclaimed}
use movie_reservation_servic.Memory.Claim
use movie_reservation_servic.Memory.Claim.{
  claim_next, claim_metadata, candidate, lease_timeout_attempt,
}
use movie_reservation_servic.Memory.Settle.{
  first_conflict, confirm_claimed, reject_claimed, release_claimed, fail_claimed, conflict_attempt,
}
use movie_reservation_servic.Memory.Save.{save_request_new, save_request_known}
use movie_reservation_servic.Memory.Eligible.{is_expired_iff}
use movie_reservation_servic.Memory.Fifo.{claim_next-cases, IsNext, is_spent, claim_result}
use movie_reservation_servic.Memory.Owned.{
  IsOwned, require_claimed-cases, settled, with_status, failed_once, reject_claimed_lem,
  fail_claimed_lem, release_claimed_lem, confirm_claimed_known, confirm_claimed_free,
  confirm_claimed_taken, reject_claimed_lost, fail_claimed_lost, release_claimed_lost,
  confirm_claimed_lost,
}
use movie_reservation_servic.Memory.Heartbeat.{
  heartbeat-cases, heartbeat_of_IsHeld, renewed_metadata,
}
use movie_reservation_servic.Memory.Effect.{
  Allowed, Effect, unchanged, created, renewed, moved, Command, run, settled-IsMove,
}

-- The state that a call leaves, where the whole result is known.
left : {A : Type 0} (x y : A × Store) (s : Store) → x ≡ y → Effect s y.1 → Effect s x.1
left x y s e h = subst (λ z. Effect s z.1) (sym e) h

module _ (s : Store) (h : IsWellFormed s) where
  save_request-Effect :
      (r : ReservationRequest) (context : Option ObservabilityContext)
      → s.next_sequence ≤ max_safe_integer
      → Effect s (save_request r context s).1
  save_request-Effect r context room = elim (Option-cases (get s.requests r.id)) [
    | inl free ↦
        left _ _ s (save_request_new r context s free h.positive room)
          (created r context free room refl)
    | inr (known, e) ↦ left _ _ s (save_request_known r context s known e) (unchanged refl)
  ]

  module _ (d : Dates) (input : ClaimInput) where
    claim_result-Effect :
        (r : ReservationRequest) (m : WorkMetadata)
        → IsNext d input s r m
        → Effect s (claim_result d input s r m).1
    claim_result-Effect r m next = elim (Bool-cases (is_spent d input r m)) [
      | inl spent ↦ rw spent (
          moved (
            settled-IsMove s h r m (unclaimed m) failed
              (lease_timeout_attempt r m.sequence input.claimed_at) next.stored next.tracked
              (subst (λ st. Allowed st failed)
                (sym ((is_expired_iff d r m input.claimed_at).0 (ground arith)).0) Allowed.fail)
              refl))
      | inr kept ↦ rw kept (
          moved (record {
            r = r;
            m = m;
            m' = claim_metadata input (candidate d input r m);
            status = processing;
            stored = next.stored;
            tracked = next.tracked;
            allowed = elim next.eligible [
              | inl (p, few) ↦ subst (λ st. Allowed st processing) (sym p) Allowed.claim
              | inr (p, late) ↦ subst (λ st. Allowed st processing) (sym p) Allowed.reclaim
            ];
            in_order = refl;
            requests = refl;
            work_metadata = refl;
            next_sequence = refl;
          }))
    ]

    pub claim_next-Effect : Effect s (claim_next d input s).1
    claim_next-Effect = elim (claim_next-cases d input s h) [
      | inl (r, m, next, e) ↦ left _ _ s e (claim_result-Effect r m next)
      | inr (idle, e) ↦ left _ _ s e (unchanged refl)
    ]

  -- The calls that end a claim: the owner's moves its request, any other changes nothing.
  module _ (c : ClaimedReservationRequest) where
    owned-Effect :
        (r : ReservationRequest) (m m' : WorkMetadata) (status : ReservationRequestStatus)
        (a : ProcessingAttempt) (t : Store)
        → IsOwned s c r m
        → Allowed processing status
        → m'.sequence ≡ m.sequence
        → t.requests ≡ (settled s (with_status r status) m' a).requests
        → t.work_metadata ≡ (settled s (with_status r status) m' a).work_metadata
        → t.next_sequence ≡ s.next_sequence
        → Effect s t
    owned-Effect r m m' status a t o allowed same er em en =
        let named = h.keyed c.reservation_request.id r o.stored in
        moved (record {
          r = r;
          m = m;
          m' = m';
          status = status;
          stored = subst (λ k. get s.requests k ≡ some r) (sym named) o.stored;
          tracked = subst (λ k. get s.work_metadata k ≡ some m) (sym named) o.tracked;
          allowed = subst (λ st. Allowed st status) (sym o.status) allowed;
          in_order = same;
          requests = er;
          work_metadata = em;
          next_sequence = en;
        })

    pub reject_claimed-Effect : (a : RejectedAttempt) → Effect s (reject_claimed c a s).1
    reject_claimed-Effect a = elim (require_claimed-cases c s) [
      | inl (r, m, o) ↦ left _ _ s (reject_claimed_lem c s r m o (h.keyed _ r o.stored) a) (
          owned-Effect r m (unclaimed m) rejected (Work.ProcessingAttempt.rejected a) _ o
            Allowed.reject refl refl refl refl)
      | inr (e, lost) ↦ left _ _ s (reject_claimed_lost c s e lost a) (unchanged refl)
    ]

    pub fail_claimed-Effect : (a : FailedAttempt) → Effect s (fail_claimed c a s).1
    fail_claimed-Effect a = elim (require_claimed-cases c s) [
      | inl (r, m, o) ↦ left _ _ s (fail_claimed_lem c s r m o (h.keyed _ r o.stored) a) (
          owned-Effect r m (failed_once m) failed (Work.ProcessingAttempt.failed a) _ o Allowed.fail
            refl refl refl refl)
      | inr (e, lost) ↦ left _ _ s (fail_claimed_lost c s e lost a) (unchanged refl)
    ]

    pub release_claimed-Effect : (a : FailedAttempt) → Effect s (release_claimed c a s).1
    release_claimed-Effect a = elim (require_claimed-cases c s) [
      | inl (r, m, o) ↦ left _ _ s (release_claimed_lem c s r m o (h.keyed _ r o.stored) a) (
          owned-Effect r m (failed_once m) requested (Work.ProcessingAttempt.failed a) _ o
            Allowed.release refl refl refl refl)
      | inr (e, lost) ↦ left _ _ s (release_claimed_lost c s e lost a) (unchanged refl)
    ]

    confirm_owned-Effect :
        (reservation : Reservation) (a : ConfirmedAttempt) (r : ReservationRequest)
        (m : WorkMetadata)
        → IsOwned s c r m
        → Effect s (confirm_claimed c reservation a s).1
    confirm_owned-Effect reservation a r m o =
        let named = h.keyed c.reservation_request.id r o.stored in
        elim (Bool-cases (has s.reservations reservation.id)) [
          | inl known ↦
              left _ _ s (confirm_claimed_known c s r m o named reservation a known)
                (unchanged refl)
          | inr new ↦
              elim (Option-cases (
                first_conflict reservation.screening_id reservation.seat_ids
                  (values s.reservations))) [
                    | inl free ↦
                        left _ _ s (confirm_claimed_free c s r m o named reservation a new free) (
                          owned-Effect r m (unclaimed m) confirmed
                            (Work.ProcessingAttempt.confirmed a) _ o Allowed.confirm refl refl refl
                            refl)
                    | inr (conflict, taken) ↦
                        left _ _ s
                          (confirm_claimed_taken c s r m o named reservation a conflict new taken)
                          (owned-Effect r m (unclaimed m) rejected
                            (Work.ProcessingAttempt.rejected (conflict_attempt r c a.base conflict))
                            _ o Allowed.reject refl refl refl refl)
                  ]
        ]

    pub confirm_claimed-Effect :
        (reservation : Reservation) (a : ConfirmedAttempt)
        → Effect s (confirm_claimed c reservation a s).1
    confirm_claimed-Effect reservation a = elim (require_claimed-cases c s) [
      | inl (r, m, o) ↦ confirm_owned-Effect reservation a r m o
      | inr (e, lost) ↦ left _ _ s (confirm_claimed_lost c s e lost reservation a) (unchanged refl)
    ]

    heartbeat-Effect : (at expires_at : JsString) → Effect s (Claim.heartbeat c at expires_at s).1
    heartbeat-Effect at expires_at = elim (heartbeat-cases c at expires_at s h) [
      | inl (r, m, o) ↦ left _ _ s (heartbeat_of_IsHeld c at expires_at s r m o) (
          renewed (record {
            k = r.id;
            m = m;
            m' = renewed_metadata m at expires_at;
            tracked = o.tracked;
            in_order = refl;
            requests = refl;
            work_metadata = refl;
            next_sequence = refl;
          }))
      | inr e ↦ left _ _ s e (unchanged refl)
    ]

-- Every call on a well-formed store changes nothing, adds a request, renews a claim, or moves one
-- request along its lifecycle.
pub run-Effect :
    (d : Dates) (command : Command) (s : Store)
    → IsWellFormed s
    → s.next_sequence ≤ max_safe_integer
    → Effect s (run d command s)
unfolding run
run-Effect d (Command.save r context) s h room = save_request-Effect s h r context room
run-Effect d (Command.claim input) s h room = claim_next-Effect s h d input
run-Effect d (Command.heartbeat c at e) s h room = heartbeat-Effect s h c at e
run-Effect d (Command.confirm c reservation a) s h room = confirm_claimed-Effect s h c reservation a
run-Effect d (Command.reject c a) s h room = reject_claimed-Effect s h c a
run-Effect d (Command.release c a) s h room = release_claimed-Effect s h c a
run-Effect d (Command.fail c a) s h room = fail_claimed-Effect s h c a
