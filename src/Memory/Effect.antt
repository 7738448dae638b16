-- ===== src/Memory/Effect.antt =====
-- What one call of the adapters may do to the requests of the store: a step relation, and the
-- commands whose runs it describes.
use movie_reservation_servic.Prelude.{◌≤◌, ◌≡◌, refl, Option, none, some, JsString}
use movie_reservation_servic.Prelude.JsMap.{get, set}
use movie_reservation_servic.Dates.{Dates}
use movie_reservation_servic.Domain.Request.{
  ReservationRequestStatus, requested, processing, confirmed, rejected, failed, ReservationRequest,
  max_safe_integer,
}
use movie_reservation_servic.Domain.Reservation.{Reservation}
use movie_reservation_servic.Work.{
  ObservabilityContext, ClaimedReservationRequest, ClaimInput, ConfirmedAttempt, RejectedAttempt,
  FailedAttempt, ProcessingAttempt,
}
use movie_reservation_servic.Memory.Store.{WorkMetadata, Store, save_request}
use movie_reservation_servic.Memory.Invariant.{IsWellFormed}
use movie_reservation_servic.Memory.Claim
use movie_reservation_servic.Memory.Claim.{claim_next}
use movie_reservation_servic.Memory.Settle.{
  confirm_claimed, reject_claimed, release_claimed, fail_claimed,
}
use movie_reservation_servic.Memory.Save.{saved}
use movie_reservation_servic.Memory.Owned.{settled, with_status}

-- The moves of a request's lifecycle: claim, reclaim, the three ends, and release for a retry.
pub data Allowed : ReservationRequestStatus → ReservationRequestStatus → Type 0 where
  claim : Allowed requested processing
  reclaim : Allowed processing processing
  confirm : Allowed processing confirmed
  reject : Allowed processing rejected
  fail : Allowed processing failed
  release : Allowed processing requested

-- One request moves along an edge of its lifecycle, and keeps its sequence number.
pub record IsMove (s t : Store) : Type 0 where
  pub r : ReservationRequest
  pub m : WorkMetadata
  pub m' : WorkMetadata
  pub status : ReservationRequestStatus
  pub stored : get s.requests r.id ≡ some r
  pub tracked : get s.work_metadata r.id ≡ some m
  pub allowed : Allowed r.status status
  pub in_order : m'.sequence ≡ m.sequence
  pub requests : t.requests ≡ set s.requests r.id (with_status r status)
  pub work_metadata : t.work_metadata ≡ set s.work_metadata r.id m'
  pub next_sequence : t.next_sequence ≡ s.next_sequence

-- A claim is renewed: the requests stay as they are.
pub record IsRenewal (s t : Store) : Type 0 where
  pub k : JsString
  pub m : WorkMetadata
  pub m' : WorkMetadata
  pub tracked : get s.work_metadata k ≡ some m
  pub in_order : m'.sequence ≡ m.sequence
  pub requests : t.requests ≡ s.requests
  pub work_metadata : t.work_metadata ≡ set s.work_metadata k m'
  pub next_sequence : t.next_sequence ≡ s.next_sequence

pub data Effect (s t : Store) : Type 0 where
  unchanged : t ≡ s → Effect s t
  created :
      (r : ReservationRequest) (context : Option ObservabilityContext)
      → get s.requests r.id ≡ none
      → s.next_sequence ≤ max_safe_integer
      → t ≡ saved s r context
      → Effect s t
  renewed : IsRenewal s t → Effect s t
  moved : IsMove s t → Effect s t

-- The calls of the two adapters that write.
pub data Command : Type 0 where
  save : ReservationRequest → Option ObservabilityContext → Command
  claim : ClaimInput → Command
  heartbeat : ClaimedReservationRequest → (at expires_at : JsString) → Command
  confirm : ClaimedReservationRequest → Reservation → ConfirmedAttempt → Command
  reject : ClaimedReservationRequest → RejectedAttempt → Command
  release : ClaimedReservationRequest → FailedAttempt → Command
  fail : ClaimedReservationRequest → FailedAttempt → Command

-- A call, whether it returns or throws.
unfoldable pub run : Dates → Command → Store → Store
run d (Command.save r context) s = (save_request r context s).1
run d (Command.claim input) s = (claim_next d input s).1
run d (Command.heartbeat c at expires_at) s = (Claim.heartbeat c at expires_at s).1
run d (Command.confirm c reservation a) s = (confirm_claimed c reservation a s).1
run d (Command.reject c a) s = (reject_claimed c a s).1
run d (Command.release c a) s = (release_claimed c a s).1
run d (Command.fail c a) s = (fail_claimed c a s).1

module _ (s : Store) (h : IsWellFormed s) where
  pub settled-IsMove :
      (r : ReservationRequest) (m m' : WorkMetadata) (status : ReservationRequestStatus)
      (a : ProcessingAttempt)
      → get s.requests r.id ≡ some r
      → get s.work_metadata r.id ≡ some m
      → Allowed r.status status
      → m'.sequence ≡ m.sequence
      → IsMove s (settled s (with_status r status) m' a)
  settled-IsMove r m m' status a stored tracked allowed same = record {
    r = r;
    m = m;
    m' = m';
    status = status;
    stored = stored;
    tracked = tracked;
    allowed = allowed;
    in_order = same;
    requests = refl;
    work_metadata = refl;
    next_sequence = refl;
  }
