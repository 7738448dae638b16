-- ===== src/Processor/Handed.antt =====
-- The claim with which `processNextPendingRequest` begins, and the store.
use movie_reservation_servic.Prelude.{
  ℕ, ◌≤◌, ◌≡◌, ◌⊎◌, sym, ap, ◌∙◌, subst, refl, Option, none, some, ok, Bool-cases, inl, inr, arith,
}
use mathlib.Core.Option.{some-injective}
use movie_reservation_servic.Prelude.JsMap.{get, get-set_self}
use movie_reservation_servic.Dates.{Dates}
use movie_reservation_servic.Domain.Request.{processing, failed, ReservationRequest}
use movie_reservation_servic.Work.{ClaimedReservationRequest, ClaimInput}
use movie_reservation_servic.Memory.Store.{Store, WorkMetadata}
use movie_reservation_servic.Memory.Metadata.{unclaimed}
use movie_reservation_servic.Memory.Invariant.{IsWellFormed}
use movie_reservation_servic.Memory.Claim.{
  claim_next, lease_timeout_attempt, claim_metadata, candidate,
}
use movie_reservation_servic.Memory.Fifo.{
  IsIdle, is_spent, claimed_item, claimed_store, abandoned_store, claim_next-cases,
}
use movie_reservation_servic.Memory.Owned.{with_status}
use movie_reservation_servic.Memory.Runs.{claim_next-Effect}
use movie_reservation_servic.Memory.Lifecycle.{Effect-IsWellFormed}
use movie_reservation_servic.Processor.Triples.{Post}
use movie_reservation_servic.Processor.Stored.{IsEnded, IsStanding, settled-IsEnded}

-- A request whose lease timeouts are spent has been given up: it is FAILED, for a lease timeout.
abbrev pub IsGivenUp : ClaimInput → Store → Type 0
IsGivenUp input s =
    (r : ReservationRequest) × (m : WorkMetadata) × (get s.work_metadata r.id ≡ some m)
    × (input.max_lease_timeouts ≤ m.lease_timeout_count)
    × ((n : ℕ) × IsEnded s r failed (lease_timeout_attempt r m.sequence input.claimed_at) n)

-- What a claim leaves: a work item that stands, or else nothing to claim or a request given up
abbrev pub IsHanded : Dates → ClaimInput → Option ClaimedReservationRequest → Store → Type 0
IsHanded d input none s = IsIdle d input s ⊎ IsGivenUp input s
IsHanded d input (some c) s = IsStanding c s

module _ (d : Dates) (input : ClaimInput) (s : Store) (h : IsWellFormed s) where
  claimed-IsStanding :
      (r : ReservationRequest) (m : WorkMetadata)
      → IsWellFormed (claimed_store d input s r m)
      → IsStanding (claimed_item d input r m) (claimed_store d input s r m)
  claimed-IsStanding r m h' = record {
    well = h';
    as_claimed = λ q n o. (
      some-injective q (with_status r processing)
          (sym o.stored ∙ get-set_self s.requests r.id (with_status r processing)),
      ap (λ x. x.transient_failure_count)
          (some-injective n (claim_metadata input (candidate d input r m)) (
            sym o.tracked
            ∙ get-set_self s.work_metadata r.id (claim_metadata input (candidate d input r m)))),
    );
  }

  pub claim_next-Post :
      Post IsWellFormed (IsHanded d input) (claim_next d input s).0 (claim_next d input s).1
  claim_next-Post =
      let h' = Effect-IsWellFormed (claim_next-Effect s h d input) h in
      let Q = IsHanded d input in
      elim (claim_next-cases d input s h) [
        | inr (idle, e) ↦ subst (λ x. Post IsWellFormed Q x.0 x.1) (sym e) (h, inl idle)
        | inl (r, m, next, e) ↦ elim (Bool-cases (is_spent d input r m)) [
          | inl spent ↦
              let after : claim_next d input s ≡ (ok none, abandoned_store d input s r m) =
                e ∙ rw spent refl in
              let r' = with_status r failed in
              subst (λ x. Post IsWellFormed Q x.0 x.1) (sym after)
                (
                  subst (λ x. IsWellFormed x.1) after h',
                  inr (
                    r',
                    unclaimed m,
                    get-set_self s.work_metadata r.id (unclaimed m),
                    ground (arith, spent),
                    (
                      m.transient_failure_count,
                      settled-IsEnded s r' m (lease_timeout_attempt r m.sequence input.claimed_at)
                          refl refl,
                    ),
                  ),
                )
          | inr left ↦
              let after : claim_next d input s
                  ≡ (ok (some (claimed_item d input r m)), claimed_store d input s r m) =
                e ∙ rw left refl in
              let well = subst (λ x. IsWellFormed x.1) after h' in
              subst (λ x. Post IsWellFormed Q x.0 x.1) (sym after)
                (well, claimed-IsStanding r m well)
        ]
      ]
