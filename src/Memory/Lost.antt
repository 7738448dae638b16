-- ===== src/Memory/Lost.antt =====
-- The claim check of the work repository, and claims that are not, or no longer, their holder's.
use movie_reservation_servic.Prelude.{◌≡◌, ◌↔◌, ap, ok, inl, inr}
use movie_reservation_servic.Dates.{Dates}
use movie_reservation_servic.Domain.Request.{ReservationRequest}
use movie_reservation_servic.Domain.Reservation.{Reservation}
use movie_reservation_servic.Work.{
  ClaimedReservationRequest, ConfirmedAttempt, RejectedAttempt, FailedAttempt,
}
use movie_reservation_servic.Memory.Store.{WorkMetadata, Store}
use movie_reservation_servic.Memory.Settle.{require_claimed}
use movie_reservation_servic.Memory.Effect.{Command, run}
use movie_reservation_servic.Memory.Owned.{
  IsOwned, require_claimed_of_IsOwned, require_claimed-eq-ok, require_claimed-cases,
  reject_claimed_lost, fail_claimed_lost, release_claimed_lost, confirm_claimed_lost,
}

module _ (c : ClaimedReservationRequest) (s : Store) where
  -- The claim check answers a request exactly when that request is stored under the work item's id,
  -- is PROCESSING, and has the item's sequence number, worker and token in its metadata.
  pub require_claimed_iff :
      (r : ReservationRequest)
      → ((require_claimed c s).0 ≡ ok r) ↔ ((m : WorkMetadata) × IsOwned s c r m)
  require_claimed_iff r =
      (require_claimed-eq-ok c s r, λ p. ap (λ x. x.0) (require_claimed_of_IsOwned c s r p.0 p.1))

  -- Under a claim that the store does not hold, confirming, rejecting, releasing and failing all
  -- leave the store as it is.
  pub lost_claim-unchanged :
      (d : Dates) (reservation : Reservation) (a : ConfirmedAttempt) (b : RejectedAttempt)
      (f : FailedAttempt)
      → ((r : ReservationRequest) (m : WorkMetadata) → ¬ IsOwned s c r m)
      → (run d (Command.confirm c reservation a) s ≡ s)
        × (run d (Command.reject c b) s ≡ s)
        × (run d (Command.release c f) s ≡ s)
        × (run d (Command.fail c f) s ≡ s)
  unfolding run
  lost_claim-unchanged d reservation a b f lost = elim (require_claimed-cases c s) [
    | inl (r, m, o) ↦ absurd (lost r m o)
    | inr (e, q) ↦ (
      ap (λ x. x.1) (confirm_claimed_lost c s e q reservation a),
      ap (λ x. x.1) (reject_claimed_lost c s e q b),
      ap (λ x. x.1) (release_claimed_lost c s e q f),
      ap (λ x. x.1) (fail_claimed_lost c s e q f),
    )
  ]
