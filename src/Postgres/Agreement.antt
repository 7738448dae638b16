-- ===== src/Postgres/Agreement.antt =====
-- The two adapters of the work repository, in-memory and PostgreSQL: the requests that a claim may
-- take.
use movie_reservation_servic.Prelude.{
  ◌≡◌, refl, Option, none, some, JsString, ◌===◌, ◌&&◌, if◌then◌else◌, Bool-cases, inl, inr, arith,
}
use movie_reservation_servic.Dates.{Dates, not_after}
use movie_reservation_servic.Domain.Request.{
  ReservationRequestStatus, requested, processing, confirmed, rejected, failed, ReservationRequest,
  same_status,
}
use movie_reservation_servic.Work.{ClaimedReservationRequest, ClaimInput}
use movie_reservation_servic.Memory.Store.{WorkMetadata}
use movie_reservation_servic.Memory.Claim
use movie_reservation_servic.Memory.Claim.{is_expired, consider, candidate, is_earlier}
use movie_reservation_servic.Memory.Eligible.{
  is_open, is_open_iff, consider_eligible, consider-cases,
}
use movie_reservation_servic.Postgres.Rows.{Timestamp, ReservationRequestRow}
use movie_reservation_servic.Postgres.Mappers.{status_text}
use movie_reservation_servic.Postgres.Tables.{Engine}
use movie_reservation_servic.Postgres.Claimer
use movie_reservation_servic.Postgres.Claimer.{is_claimable}

-- The texts of two statuses are the same when the statuses are.
pub status_text-same_status :
    (a b : ReservationRequestStatus) → (status_text a === status_text b) ≡ same_status a b
unfolding ◌===◌
status_text-same_status requested requested = refl
status_text-same_status requested processing = refl
status_text-same_status requested confirmed = refl
status_text-same_status requested rejected = refl
status_text-same_status requested failed = refl
status_text-same_status processing requested = refl
status_text-same_status processing processing = refl
status_text-same_status processing confirmed = refl
status_text-same_status processing rejected = refl
status_text-same_status processing failed = refl
status_text-same_status confirmed requested = refl
status_text-same_status confirmed processing = refl
status_text-same_status confirmed confirmed = refl
status_text-same_status confirmed rejected = refl
status_text-same_status confirmed failed = refl
status_text-same_status rejected requested = refl
status_text-same_status rejected processing = refl
status_text-same_status rejected confirmed = refl
status_text-same_status rejected rejected = refl
status_text-same_status rejected failed = refl
status_text-same_status failed requested = refl
status_text-same_status failed processing = refl
status_text-same_status failed confirmed = refl
status_text-same_status failed rejected = refl
status_text-same_status failed failed = refl

module _ (e : Engine) (d : Dates) (input : ClaimInput) (at : Timestamp) where
  -- A column and a field that are both unset, or times that both stand on the same side of the time
  -- of the claim
  pub data SameExpiry : Option Timestamp → Option JsString → Type 0 where
    both_unset : SameExpiry none none
    both_set :
        (column : Timestamp) (field : JsString)
        → e.at_or_before column at ≡ not_after d field input.claimed_at
        → SameExpiry (some column) (some field)

  -- A row of the table tells what the maps of the in-memory store tell.
  pub record Corresponds (row : ReservationRequestRow) (r : ReservationRequest) (m : WorkMetadata)
      : Type 0 where
    pub status : row.status ≡ status_text r.status
    pub transient_failure_count : row.transient_failure_count ≡ m.transient_failure_count
    pub expiry : SameExpiry row.claim_expires_at m.claim_expires_at

  expires_by-SameExpiry :
      (column : Option Timestamp) (field : Option JsString)
      → SameExpiry column field
      → Claimer.expires_by e column at ≡ Claim.expires_by d field input.claimed_at
  expires_by-SameExpiry _ _ both_unset = refl
  expires_by-SameExpiry _ _ (both_set column field same) = same

  is_claimable-is_open :
      (row : ReservationRequestRow) (r : ReservationRequest) (m : WorkMetadata)
      → Corresponds row r m
      → is_claimable e input at row ≡ is_open d input r m
  unfolding is_claimable is_expired
  is_claimable-is_open row r m c =
      rw
        (
          c.status,
          c.transient_failure_count,
          status_text-same_status r.status requested,
          status_text-same_status r.status processing,
          expires_by-SameExpiry row.claim_expires_at m.claim_expires_at c.expiry,
        )
        refl

  -- A round of the scan takes the request when the test is open and it is earlier.
  consider-is_open :
      (r : ReservationRequest) (m : WorkMetadata) (next : Option ClaimedReservationRequest)
      → consider d input r m next ≡ (
          if is_open d input r m && is_earlier m.sequence next
          then some (candidate d input r m)
          else next)
  consider-is_open r m next = elim (Bool-cases (is_open d input r m)) [
    | inl yes_open ↦
        ground (arith, consider_eligible d input r m next ((is_open_iff d input r m).0 yes_open))
    | inr shut ↦ elim (consider-cases d input r m next) [
      | inl eligible ↦ absurd (ground (arith, (is_open_iff d input r m).1 eligible))
      | inr (refused, kept) ↦ ground arith
    ]
  ]

  -- A round of the in-memory scan replaces what it has found so far exactly when the condition of
  -- the query selects the corresponding row and the request comes earlier than what was found. The
  -- expiry of the row and of the metadata correspond when both are unset, or stand on the same side
  -- of the time of the claim.
  pub consider-is_claimable :
      (row : ReservationRequestRow) (r : ReservationRequest) (m : WorkMetadata)
      (next : Option ClaimedReservationRequest)
      → Corresponds row r m
      → consider d input r m next ≡ (
          if is_claimable e input at row && is_earlier m.sequence next
          then some (candidate d input r m)
          else next)
  consider-is_claimable row r m next c =
      rw (is_claimable-is_open row r m c) (consider-is_open r m next)
