-- ===== src/Postgres/Bounds.antt =====
-- The numbers of the work items that `claimNextPendingReservationRequest` of
-- postgres-reservation-request-claimer.ts returns.
use movie_reservation_servic.Prelude.{
  ℕ, ◌≤◌, ◌≡◌, refl, sym, ap, ◌∙◌, inl, inr, arith, some, List, [], ◌∷◌, Has, ◌===◌, ===_refl,
  ===_iff, ok, filter, Bool-cases,
}
use mathlib.Core.Option.{some-injective}
use movie_reservation_servic.Dates.{Dates}
use movie_reservation_servic.Domain.Request.{create_sequence, max_safe_integer, processing}
use movie_reservation_servic.Work.{ClaimedReservationRequest, ClaimInput}
use movie_reservation_servic.Postgres.Rows.{ReservationRequestRow}
use movie_reservation_servic.Postgres.Mappers.{status_text}
use movie_reservation_servic.Postgres.Tables.{Tables, Engine, first, has_request_id}
use movie_reservation_servic.Postgres.Claimer.{claim_next}
use movie_reservation_servic.Postgres.Claims.{claim_next-Claimed}
use movie_reservation_servic.Postgres.Beats.{IsKeyed}

create_sequence-bounds : (n m : ℕ) → create_sequence n ≡ ok m → (1 ≤ m) × (m ≤ max_safe_integer)
unfolding create_sequence
create_sequence-bounds n m h = (ground arith, ground arith)

-- The key of the table finds its row.
pub first-IsKeyed :
    (xs : List ReservationRequestRow)
    → IsKeyed xs
    → (row : ReservationRequestRow) → Has row xs
    → first (filter (has_request_id row.id) xs) ≡ some row
unfolding filter
first-IsKeyed [] k row m = absurd m
first-IsKeyed (x ∷ xs) k row m = elim m [
  | inl e ↦ rw (ap (λ r. r.id) e, ===_refl row.id, e) refl
  | inr n ↦
      ground
        (arith, k.0 row n, ===_iff x.id row.id, ===_iff row.id x.id, first-IsKeyed xs k.1 row n)
]

-- A work item has a number from 1 to the largest safe integer, and not more lease timeouts than
-- the limit, where no stored row has more.
pub claim_next-bounds :
    (e : Engine) (d : Dates) (input : ClaimInput) (t t' : Tables) (item : ClaimedReservationRequest)
    → IsKeyed t.requests
    → ((row : ReservationRequestRow)
        → Has row t.requests
        → row.lease_timeout_count ≤ input.max_lease_timeouts)
    → claim_next e d input t ≡ (ok (some item), t')
    → (1 ≤ item.sequence)
      × (item.sequence ≤ max_safe_integer)
      × (item.lease_timeout_count ≤ input.max_lease_timeouts)
claim_next-bounds e d input t t' item keyed within h =
    let c = claim_next-Claimed e d input t t' item h in
    let same : c.stored ≡ c.row =
      some-injective c.stored c.row
        (sym c.found ∙ first-IsKeyed t.requests keyed c.row c.next.stored) in
    let (low, high) = create_sequence-bounds c.stored.sequence item.sequence c.item_of.sequence in
    (
      low,
      high,
      elim (Bool-cases (c.row.status === status_text processing)) [
        | inl late ↦ ground (
          arith,
          c.item_of.lease_timeout_count,
          ap (λ r. r.lease_timeout_count) same,
          c.in_budget late,
        )
        | inr waiting ↦ ground (
          arith,
          c.item_of.lease_timeout_count,
          ap (λ r. r.lease_timeout_count) same,
          within c.row c.next.stored,
        )
      ],
    )
