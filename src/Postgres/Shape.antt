-- ===== src/Postgres/Shape.antt =====
-- The check of the attempts against the mapper that reads them, `toReservationRequestProcessingAttempt`
-- of src/infrastructure/repositories/postgres/postgres-mappers.ts.
use movie_reservation_servic.Prelude.{
  ◌≡◌, refl, true, none, some, JsString, text, ◌===◌, ok, err, arith, Result-cases, inl, inr,
}
use movie_reservation_servic.Errors.{invalid_attempt_row}
use movie_reservation_servic.Dates.{Dates}
use movie_reservation_servic.Domain.Ids.{create_uuid_id}
use movie_reservation_servic.Domain.Request.{create_sequence}
use movie_reservation_servic.Work.{AttemptBase, ProcessingAttempt}
use movie_reservation_servic.Postgres.Rows.{AttemptRow}
use movie_reservation_servic.Postgres.Mappers.{to_attempt, to_confirmed_or_rest, to_iso_text}
use movie_reservation_servic.Postgres.Checks.{has_shape}

module _ (d : Dates) (row : AttemptRow) (conflicting : JsString)
    (is_rejected : row.outcome ≡ text "rejected") (no_reason : row.reason ≡ none)
    (no_reservation : row.reservation_id ≡ none)
    (has_conflict : row.conflicting_reservation_id ≡ some conflicting) where
  refuses :
      (base : AttemptBase)
      → to_confirmed_or_rest row base row.reservation_id
        ≡ err (invalid_attempt_row row.reservation_request_id)
  unfolding ◌===◌
  refuses base = rw (no_reservation, has_conflict, is_rejected, no_reason) refl

  -- The check lets a rejected attempt without a reason pass, since a comparison with a null is not
  -- false; the mapper reads no such row.
  pub null_reason-unreadable :
      (has_shape row ≡ true) × ((a : ProcessingAttempt) → ¬ (to_attempt d row ≡ ok a))
  unfolding has_shape to_attempt ◌===◌
  null_reason-unreadable = (
    rw (no_reservation, has_conflict, is_rejected, no_reason) refl,
    λ a h. elim (Result-cases (create_uuid_id row.reservation_request_id)) [
      | inr (x, bad) ↦ ground arith
      | inl (id, e₁) ↦ elim (Result-cases (create_sequence row.reservation_request_sequence)) [
        | inr (x, bad) ↦ ground arith
        | inl (n, e₂) ↦ elim (Result-cases (to_iso_text d row.started_at)) [
          | inr (x, bad) ↦ ground arith
          | inl (s, e₃) ↦ elim (Result-cases (to_iso_text d row.completed_at)) [
            | inr (x, bad) ↦ ground arith
            | inl (c, e₄) ↦ ground (
              arith,
              refuses (record {
                reservation_request_id = id;
                sequence = n;
                started_at = s;
                completed_at = c;
              }),
            )
          ]
        ]
      ]
    ],
  )
