-- ===== src/Postgres/Leases.antt =====
-- Ownership of a claim, from the claim to its loss.
use movie_reservation_servic.Prelude.{
  ◌≡◌, ◌≢◌, refl, sym, ap, ◌∙◌, subst, inl, inr, true, false, some, arith, List, [], ◌∷◌, Has, Bool,
  ◌===◌, ===_iff, ===_refl, is_text, Result, ok, err, Exec, filter, map, Bool-cases, Result-cases,
}
use mathlib.Core.Option.{some-injective}
use movie_reservation_servic.Errors.{Error}
use movie_reservation_servic.Dates.{Dates}
use movie_reservation_servic.Domain.Ids.{create_uuid_id}
use movie_reservation_servic.Domain.Request.{
  ReservationRequestStatus, processing, rejected, requested, failed,
}
use movie_reservation_servic.Domain.Reservation.{Reservation}
use movie_reservation_servic.Work.{
  ClaimedReservationRequest, ClaimInput, ProcessingAttempt, RejectedAttempt, FailedAttempt,
  ConfirmedAttempt, ConfirmResult,
}
use movie_reservation_servic.Postgres.Rows.{ReservationRequestRow}
use movie_reservation_servic.Postgres.Mappers.{status_text}
use movie_reservation_servic.Postgres.Tables.{Tables, Engine, first, has_request_id, update_where}
use movie_reservation_servic.Postgres.State.{
  settle, reject_claimed, release_for_retry, fail_claimed, require_claimed,
}
use movie_reservation_servic.Postgres.Claimer.{with_claim, claim_next, is_held}
use movie_reservation_servic.Postgres.Booking.{confirm_claimed}
use movie_reservation_servic.Postgres.Order.{Has-filter, first-Has}
use movie_reservation_servic.Postgres.Held.{Owns, require_claimed_of_Owns}
use movie_reservation_servic.Postgres.Atomic.{settle-Settled, transaction-ok, transaction-err}
use movie_reservation_servic.Postgres.Claims.{Claimed, claim_next-Claimed}
use movie_reservation_servic.Postgres.Conflict
use movie_reservation_servic.Postgres.Conflict.{confirm_claimed-Ends}

-- An update of the rows that a condition selects, which they meet afterwards too
pub filter-update_where :
    {A : Type 0} (p : A → Bool) (f : A → A) (xs : List A)
    → ((a : A) → p (f a) ≡ p a)
    → filter p (update_where p f xs) ≡ map f (filter p xs)
unfolding filter update_where
filter-update_where p f [] same = refl
filter-update_where p f (x ∷ xs) same = elim (Bool-cases (p x)) [
  | inl yes_x ↦ ground (arith, same x, filter-update_where p f xs same)
  | inr no_x ↦ ground (arith, same x, filter-update_where p f xs same)
]

pub first-map :
    {A : Type 0} (f : A → A) (xs : List A) (a : A)
    → first xs ≡ some a
    → first (map f xs) ≡ some (f a)
first-map f [] a h = absurd (ground arith)
first-map f (x ∷ xs) a h = ground arith

-- The ids that are stored are in the form that the guard of ids returns.
abbrev pub HasCanonicalIds : Tables → Type 0
HasCanonicalIds t =
    (row : ReservationRequestRow) → Has row t.requests → create_uuid_id row.id ≡ ok row.id

module _ (e : Engine) (d : Dates) (input : ClaimInput) (t t' : Tables)
    (item : ClaimedReservationRequest) where
  module _ (ids : HasCanonicalIds t) (c : Claimed e d input t t' item) where
    abbrev new_row : ReservationRequestRow
    new_row =
        with_claim input c.claimed_at c.expires_at (c.row.status === status_text processing)
          c.stored

    abbrev stored_lem : Has c.stored t.requests × ((c.stored.id === c.row.id) ≡ true)
    stored_lem =
        (Has-filter (has_request_id c.row.id) t.requests c.stored).0
          (first-Has (filter (has_request_id c.row.id) t.requests) c.stored c.found)

    same_id : item.reservation_request.id ≡ c.row.id
    same_id = ground (
      arith,
      ids c.stored stored_lem.0,
      c.item_of.id,
      (===_iff c.stored.id c.row.id).0 stored_lem.1,
    )

    first_row : first (filter (has_request_id c.row.id) t'.requests) ≡ some new_row
    first_row = ground (
      arith,
      c.after,
      c.found,
      filter-update_where (has_request_id c.row.id)
          (with_claim input c.claimed_at c.expires_at (c.row.status === status_text processing))
          t.requests (λ a. refl),
      first-map
          (with_claim input c.claimed_at c.expires_at (c.row.status === status_text processing))
          (filter (has_request_id c.row.id) t.requests) c.stored,
    )

    pub Claimed-Owns : Owns item t' new_row
    unfolding is_held
    Claimed-Owns = record {
      found = rw same_id first_row;
      held = ground (
        arith,
        same_id,
        stored_lem.1,
        ===_refl (status_text processing),
        ===_refl input.worker_id,
        ===_refl input.claim_token,
        c.item_of.claimed_by,
        c.item_of.claim_token,
      );
      same_sequence = c.item_of.sequence;
    }

    -- Nobody else owns the request.
    pub Claimed-exclusive :
        (other : ClaimedReservationRequest) (row : ReservationRequestRow)
        → other.reservation_request.id ≡ item.reservation_request.id
        → Owns other t' row
        → other.claim_token ≡ item.claim_token
    unfolding is_held
    Claimed-exclusive other row same h =
        let other_first : first (filter (has_request_id c.row.id) t'.requests) ≡ some row =
          subst (λ i. first (filter (has_request_id i) t'.requests) ≡ some row) (same ∙ same_id)
            h.found in
        let same_row : row ≡ new_row = some-injective row new_row (sym other_first ∙ first_row) in
        let token =
          subst (λ r. is_text r.claim_token other.claim_token ≡ true) same_row
            (ground (arith, h.held)) in
        sym ((===_iff input.claim_token other.claim_token).0 token) ∙ sym c.item_of.claim_token

  -- A claim that has been returned is one that its worker owns: the check that begins every
  -- settlement passes on the tables that the claim leaves.
  pub claim_next-require_claimed :
      HasCanonicalIds t
      → claim_next e d input t ≡ (ok (some item), t')
      → (row : ReservationRequestRow) × (require_claimed item t' ≡ (ok row, t'))
  claim_next-require_claimed ids h =
      let c = claim_next-Claimed e d input t t' item h in
      (new_row ids c, require_claimed_of_Owns item t' (new_row ids c) (Claimed-Owns ids c))

-- The action throws, and writes nothing.
abbrev pub IsRefused : {A : Type 0} → Exec Tables A → Tables → Type 0
IsRefused m t = (x : Error) × (m t ≡ (err x, t))

module _ (e : Engine) (item : ClaimedReservationRequest) (t : Tables)
    (lost : (row : ReservationRequestRow) → ¬ Owns item t row) where
  settle-IsRefused :
      (status : ReservationRequestStatus) (increments : Bool) (attempt : ProcessingAttempt)
      → IsRefused (e.transaction (settle e item status increments attempt)) t
  settle-IsRefused status increments attempt =
      let body = settle e item status increments attempt in
      let t' = (e.transaction body t).1 in
      elim (Result-cases (e.transaction body t).0) [
        | inl (q, good) ↦
            let settled =
              settle-Settled e item status increments attempt q t t'
                (transaction-ok e body t t' q (ground arith)) in
            absurd (lost settled.row settled.owned)
        | inr (x, bad) ↦ (x, ground (arith, transaction-err e body t t' x))
      ]

  confirm_claimed-IsRefused :
      (d : Dates) (reservation : Reservation) (attempt : ConfirmedAttempt)
      → IsRefused (confirm_claimed e d item reservation attempt) t
  confirm_claimed-IsRefused d reservation attempt =
      go (confirm_claimed e d item reservation attempt t).0
        (confirm_claimed e d item reservation attempt t).1 refl
        (confirm_claimed-Ends e d item reservation attempt t)
    where
      go :
          (r : Result ConfirmResult) (t' : Tables)
          → confirm_claimed e d item reservation attempt t ≡ (r, t')
          → Conflict.Ends e d item reservation attempt r t t'
          → IsRefused (confirm_claimed e d item reservation attempt) t
      go (ok (ConfirmResult.confirmed q)) t' h end = absurd (lost end.row end.owned)
      go (ok (ConfirmResult.rejected q a)) t' h end =
          absurd (lost end.settled.row end.settled.owned)
      go (err x) t' h end = (x, h ∙ ap (λ s. (err x, s)) end)

-- Where the stored ids are in canonical form: after a request has been claimed again, whoever
-- claimed it before under another token can no longer reject, release, fail or confirm it: each
-- attempt throws and writes nothing.
pub stale_claim-IsRefused :
    (e : Engine) (d : Dates) (input : ClaimInput) (t t' : Tables)
    (item stale : ClaimedReservationRequest)
    → HasCanonicalIds t
    → claim_next e d input t ≡ (ok (some item), t')
    → stale.reservation_request.id ≡ item.reservation_request.id
    → stale.claim_token ≢ item.claim_token
    → (rejection : RejectedAttempt) (failure : FailedAttempt) (reservation : Reservation)
      (confirmation : ConfirmedAttempt)
    → IsRefused (reject_claimed e stale rejection) t'
      × IsRefused (release_for_retry e stale failure) t'
      × IsRefused (fail_claimed e stale failure) t'
      × IsRefused (confirm_claimed e d stale reservation confirmation) t'
unfolding reject_claimed release_for_retry fail_claimed
stale_claim-IsRefused e d input t t' item stale ids h same other rejection failure reservation
      confirmation =
    let lost : (row : ReservationRequestRow) → ¬ Owns stale t' row = λ row o. other (
      Claimed-exclusive e d input t t' item ids (claim_next-Claimed e d input t t' item h) stale row
        same o) in
    (
      settle-IsRefused e stale t' lost rejected false (ProcessingAttempt.rejected rejection),
      settle-IsRefused e stale t' lost requested true (ProcessingAttempt.failed failure),
      settle-IsRefused e stale t' lost failed true (ProcessingAttempt.failed failure),
      confirm_claimed-IsRefused e stale t' lost d reservation confirmation,
    )
