-- ===== src/Memory/Heartbeat.antt =====
-- `heartbeatClaimedReservationRequest`, on every branch.
use movie_reservation_servic.Prelude.{
  ◌≡◌, sym, subst, true, false, some, JsString, ok, arith, Bool-cases, inl, inr, Option-cases, ◌⊎◌,
  ◌&&◌,
}
use movie_reservation_servic.Prelude.JsMap.{get, set}
use movie_reservation_servic.Domain.Request.{processing, ReservationRequest, same_status}
use movie_reservation_servic.Work.{ClaimedReservationRequest}
use movie_reservation_servic.Memory.Store.{WorkMetadata, Store}
use movie_reservation_servic.Memory.Invariant.{IsWellFormed}
use movie_reservation_servic.Memory.Metadata.{holds_claim}
use movie_reservation_servic.Memory.Claim.{heartbeat}
use movie_reservation_servic.Memory.Owned.{holds_claim_iff}

-- `c` names a PROCESSING request, and its worker and token are those of the metadata.
pub record IsHeld (s : Store) (c : ClaimedReservationRequest) (r : ReservationRequest)
    (m : WorkMetadata) : Type 0 where
  pub stored : get s.requests c.reservation_request.id ≡ some r
  pub tracked : get s.work_metadata r.id ≡ some m
  pub status : r.status ≡ processing
  pub claimed_by : m.claimed_by ≡ some c.claimed_by
  pub claim_token : m.claim_token ≡ some c.claim_token

abbrev pub renewed_metadata : WorkMetadata → JsString → JsString → WorkMetadata
renewed_metadata m at expires_at = record m {
  claim_expires_at = some expires_at;
  last_heartbeat_at = some at;
}

-- The store after a renewal: the lease of one claim has a new end.
abbrev pub renewed_store : Store → ReservationRequest → WorkMetadata → JsString → JsString → Store
renewed_store s r m at expires_at = record s {
  work_metadata = set s.work_metadata r.id (renewed_metadata m at expires_at);
}

module _ (c : ClaimedReservationRequest) (at expires_at : JsString) (s : Store) where
  -- The holder's heartbeat returns true and sets the new end of the lease, and nothing else.
  pub heartbeat_of_IsHeld :
      (r : ReservationRequest) (m : WorkMetadata)
      → IsHeld s c r m
      → heartbeat c at expires_at s ≡ (ok true, renewed_store s r m at expires_at)
  unfolding heartbeat
  heartbeat_of_IsHeld r m o =
      ground (
        arith,
        o.stored,
        o.tracked,
        o.status,
        (holds_claim_iff m c).1 (o.claimed_by, o.claim_token),
      )

  pub heartbeat-cases :
      IsWellFormed s
      → ((r : ReservationRequest) × (m : WorkMetadata) × IsHeld s c r m)
        ⊎ (heartbeat c at expires_at s ≡ (ok false, s))
  unfolding heartbeat
  heartbeat-cases h = elim (Option-cases (get s.requests c.reservation_request.id)) [
    | inl missing ↦ inr (ground arith)
    | inr (r, stored) ↦
        let (m, seen) = h.tracked c.reservation_request.id r stored in
        let tracked : get s.work_metadata r.id ≡ some m =
          subst (λ k. get s.work_metadata k ≡ some m)
            (sym (h.keyed c.reservation_request.id r stored)) seen in
        elim (Bool-cases (same_status r.status processing && holds_claim m c)) [
          | inl held ↦
              let (by, token) = (holds_claim_iff m c).0 (ground arith) in
              inl (
                r,
                m,
                record {
                  stored = stored;
                  tracked = tracked;
                  status = ground arith;
                  claimed_by = by;
                  claim_token = token;
                },
              )
          | inr other ↦ inr (ground arith)
        ]
  ]
