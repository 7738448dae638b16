-- ===== src/Postgres/Held.antt =====
-- The check of a claim inside a transaction, `requireClaimedProcessingRequest`, and the
-- transactions that begin with it.
use movie_reservation_servic.Prelude.{
  ◌≡◌, inl, inr, true, some, arith, List, [], ◌∷◌, Bool, ==_iff, ok, err, filter, Bool-cases,
  Option-cases, Result-cases,
}
use movie_reservation_servic.Errors.{Error}
use movie_reservation_servic.Domain.Request.{create_sequence}
use movie_reservation_servic.Work.{ClaimedReservationRequest}
use movie_reservation_servic.Postgres.Rows.{ReservationRequestRow}
use movie_reservation_servic.Postgres.Tables.{Tables, first, has_request_id}
use movie_reservation_servic.Postgres.State.{require_claimed}
use movie_reservation_servic.Postgres.Claimer.{is_held}

-- The row that a worker owns: the request's, PROCESSING, claimed by that worker under its token,
-- and with the sequence number of the claim.
pub record Owns (item : ClaimedReservationRequest) (t : Tables) (row : ReservationRequestRow)
    : Type 0 where
  pub found : first (filter (has_request_id item.reservation_request.id) t.requests) ≡ some row
  pub held : is_held item row ≡ true
  pub same_sequence : create_sequence row.sequence ≡ ok item.sequence

pub first-filter_lem :
    {A : Type 0} (p : A → Bool) (xs : List A) (a : A) → first (filter p xs) ≡ some a → p a ≡ true
unfolding filter
first-filter_lem p [] a h = absurd (ground arith)
first-filter_lem p (x ∷ xs) a h = elim (Bool-cases (p x)) [
  | inl yes_x ↦ ground arith
  | inr no_x ↦ ground (arith, first-filter_lem p xs a)
]

module _ (item : ClaimedReservationRequest) (t : Tables) where
  pub require_claimed_of_Owns :
      (row : ReservationRequestRow) → Owns item t row → require_claimed item t ≡ (ok row, t)
  unfolding require_claimed is_held
  require_claimed_of_Owns row h = ground (arith, h.found, h.held, h.same_sequence)

  pub require_claimed-Owns :
      (row : ReservationRequestRow) (t' : Tables)
      → require_claimed item t ≡ (ok row, t')
      → Owns item t row × (t' ≡ t)
  unfolding require_claimed is_held
  require_claimed-Owns row t' h =
      elim (Option-cases (first (filter (has_request_id item.reservation_request.id) t.requests))) [
        | inl missing ↦ absurd (ground arith)
        | inr (r, found) ↦ elim (Result-cases (create_sequence r.sequence)) [
          | inr (x, bad) ↦ absurd (ground arith)
          | inl (n, good) ↦ (
            record {
              found = ground arith;
              held = ground (
                arith,
                first-filter_lem (has_request_id item.reservation_request.id) t.requests r,
              );
              same_sequence = ground (arith, ==_iff n item.sequence);
            },
            ground arith,
          )
        ]
      ]

  -- What the check throws leaves the tables as they are.
  pub require_claimed-err :
      (x : Error) (t' : Tables) → require_claimed item t ≡ (err x, t') → t' ≡ t
  unfolding require_claimed
  require_claimed-err x t' h =
      elim (Option-cases (first (filter (has_request_id item.reservation_request.id) t.requests))) [
        | inl missing ↦ ground arith
        | inr (r, found) ↦ elim (Result-cases (create_sequence r.sequence)) [
          | inr (y, bad) ↦ ground arith
          | inl (n, good) ↦ ground arith
        ]
      ]
