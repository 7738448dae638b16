-- ===== src/Postgres/Fifo.antt =====
-- Which request `claimNextPendingReservationRequest` of postgres-reservation-request-claimer.ts
-- takes, and what it writes.
use movie_reservation_servic.Prelude.{
  ◌≤◌, ◌≡◌, subst, inl, inr, true, false, not, none, some, arith, Has, Bool, ok, filter, Bool-cases,
  Result-cases,
}
use movie_reservation_servic.Dates.{Dates}
use movie_reservation_servic.Domain.Ids.{create_uuid_id}
use movie_reservation_servic.Domain.Request.{create_sequence}
use movie_reservation_servic.Work.{ClaimedReservationRequest, ClaimInput}
use movie_reservation_servic.Postgres.Rows.{Timestamp, ReservationRequestRow}
use movie_reservation_servic.Postgres.Mappers.{parse_status, to_reservation_request}
use movie_reservation_servic.Postgres.Tables.{
  Tables, Engine, first, order_by, has_request_id, update_where, update_requests,
}
use movie_reservation_servic.Postgres.State.{find_request_seat_ids}
use movie_reservation_servic.Postgres.Claimer.{
  iso_or_input, is_claimable, find_next_claimable, sequence_order, with_claim, claim_row,
  to_claimed,
}
use movie_reservation_servic.Postgres.Order.{
  first-order_by-IsLeast, first-order_by-Has, Has-filter, Has-order_by, first-none,
}
use movie_reservation_servic.Postgres.Outcomes.{
  to_reservation_request-id, to_reservation_request-status, List-cases, find_request_seat_ids-state,
}

-- The row that is next: claimable at the time of the claim, not locked by another transaction, and
-- of the least sequence number among those.
pub record IsNext (e : Engine) (input : ClaimInput) (t : Tables) (row : ReservationRequestRow)
    : Type 0 where
  pub at : Timestamp
  pub claimed_at : e.timestamptz input.claimed_at ≡ ok at
  pub stored : Has row t.requests
  pub claimable : is_claimable e input at row ≡ true
  pub unlocked : e.is_locked t row ≡ false
  pub least :
      (other : ReservationRequestRow)
      → Has other t.requests
      → is_claimable e input at other ≡ true
      → e.is_locked t other ≡ false
      → row.sequence ≤ other.sequence

module _ (e : Engine) (input : ClaimInput) (t t' : Tables) where
  pub find_next_claimable-IsNext :
      (row : ReservationRequestRow)
      → find_next_claimable e input t ≡ (ok (some row), t')
      → IsNext e input t row × (t' ≡ t)
  unfolding find_next_claimable
  find_next_claimable-IsNext row h = elim (Result-cases (e.timestamptz input.claimed_at)) [
    | inr (x, bad) ↦ absurd (ground arith)
    | inl (at, e_at) ↦
        let p = is_claimable e input at in
        let q = λ (r : ReservationRequestRow). not (e.is_locked t r) in
        let key = λ (r : ReservationRequestRow). r.sequence in
        let selected : first (filter q (order_by sequence_order (filter p t.requests))) ≡ some row =
          ground arith in
        let (stored, claimable, unlocked) = first-order_by-Has key p q t.requests row selected in
        (
          record {
            at = at;
            claimed_at = e_at;
            stored = stored;
            claimable = claimable;
            unlocked = ground arith;
            least = λ other m c u.
                first-order_by-IsLeast key p q t.requests row selected other m c (ground arith);
          },
          ground arith,
        )
  ]

  pub find_next_claimable-none :
      find_next_claimable e input t ≡ (ok none, t')
      → ((at : Timestamp)
          → e.timestamptz input.claimed_at ≡ ok at
          → (row : ReservationRequestRow) → Has row t.requests
          → is_claimable e input at row ≡ true
          → e.is_locked t row ≡ true)
        × (t' ≡ t)
  unfolding find_next_claimable
  find_next_claimable-none h = elim (Result-cases (e.timestamptz input.claimed_at)) [
    | inr (x, bad) ↦ absurd (ground arith)
    | inl (at, e_at) ↦ (
      λ at' e_at' row m c. elim (Bool-cases (e.is_locked t row)) [
        | inl locked ↦ locked
        | inr unlocked ↦
            let p = is_claimable e input at in
            let q = λ (r : ReservationRequestRow). not (e.is_locked t r) in
            let all = order_by sequence_order (filter p t.requests) in
            let nothing = first-none (filter q all) (ground arith) in
            let in_all =
              (Has-order_by sequence_order (filter p t.requests) row).1
                ((Has-filter p t.requests row).1 (m, ground arith)) in
            absurd (subst (Has row) nothing ((Has-filter q all row).1 (in_all, ground arith)))
      ],
      ground arith,
    )
  ]

module _ (e : Engine) (d : Dates) (input : ClaimInput) where
  pub claim_row-ok :
      (row updated : ReservationRequestRow) (increments : Bool) (t t' : Tables)
      → claim_row e row input increments t ≡ (ok updated, t')
      → (claimed_at : Timestamp) × (expires_at : Timestamp) × (stored : ReservationRequestRow)
        × (e.timestamptz input.claimed_at ≡ ok claimed_at)
        × (e.timestamptz input.claim_expires_at ≡ ok expires_at)
        × (first (filter (has_request_id row.id) t.requests) ≡ some stored)
        × (updated ≡ with_claim input claimed_at expires_at increments stored)
        × (t' ≡ record t {
          requests =
              update_where
                (has_request_id row.id)
                (with_claim input claimed_at expires_at increments)
                t.requests;
        })
  unfolding claim_row update_requests
  claim_row-ok row updated increments t t' h =
      elim (Result-cases (e.timestamptz input.claimed_at)) [
        | inr (x, bad) ↦ absurd (ground arith)
        | inl (ca, e_ca) ↦ elim (Result-cases (e.timestamptz input.claim_expires_at)) [
          | inr (x, bad) ↦ absurd (ground arith)
          | inl (ea, e_ea) ↦ elim (List-cases (filter (has_request_id row.id) t.requests)) [
            | inl empty ↦ absurd (ground (arith, empty))
            | inr (stored, rest, e_rows) ↦
                (ca, ea, stored, e_ca, e_ea, ground arith, ground arith, ground arith)
          ]
        ]
      ]

  -- The work item is made from the row, and names the worker and its token.
  pub record IsItemOf (row : ReservationRequestRow) (item : ClaimedReservationRequest)
      : Type 0 where
    pub id : create_uuid_id row.id ≡ ok item.reservation_request.id
    pub status : parse_status row.status ≡ ok item.reservation_request.status
    pub sequence : create_sequence row.sequence ≡ ok item.sequence
    pub claimed_by : item.claimed_by ≡ input.worker_id
    pub claim_token : item.claim_token ≡ input.claim_token
    pub lease_timeout_count : item.lease_timeout_count ≡ row.lease_timeout_count
    pub transient_failure_count : item.transient_failure_count ≡ row.transient_failure_count

  pub to_claimed-IsItemOf :
      (row : ReservationRequestRow) (item : ClaimedReservationRequest) (t t' : Tables)
      → to_claimed e d input row t ≡ (ok item, t')
      → IsItemOf row item × (t' ≡ t)
  unfolding to_claimed
  to_claimed-IsItemOf row item t t' h =
      let same = find_request_seat_ids-state e row.id t in
      elim (Result-cases (find_request_seat_ids e row.id t).0) [
        | inr (x, bad) ↦ absurd (ground (arith, same))
        | inl (seat_ids, e₁) ↦ elim (Result-cases (to_reservation_request row seat_ids)) [
          | inr (x, bad) ↦ absurd (ground (arith, same))
          | inl (q, e₂) ↦ elim (Result-cases (create_sequence row.sequence)) [
            | inr (x, bad) ↦ absurd (ground (arith, same))
            | inl (n, e₃) ↦ elim (Result-cases (iso_or_input d row.claimed_at input.claimed_at)) [
              | inr (x, bad) ↦ absurd (ground (arith, same))
              | inl (c, e₄) ↦
                  elim (Result-cases (iso_or_input d row.claim_expires_at input.claim_expires_at)) [
                    | inr (x, bad) ↦ absurd (ground (arith, same))
                    | inl (u, e₅) ↦ (
                      record {
                        id = ground (arith, same, to_reservation_request-id row seat_ids q);
                        status = ground (arith, same, to_reservation_request-status row seat_ids q);
                        sequence = ground (arith, same);
                        claimed_by = ground (arith, same);
                        claim_token = ground (arith, same);
                        lease_timeout_count = ground (arith, same);
                        transient_failure_count = ground (arith, same);
                      },
                      ground (arith, same),
                    )
                  ]
            ]
          ]
        ]
      ]
