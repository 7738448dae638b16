-- ===== src/Postgres/Claims.antt =====
-- How `claimNextPendingReservationRequest` of postgres-reservation-request-claimer.ts ends.
use movie_reservation_servic.Prelude.{
  ℕ, ◌≤◌, ◌<◌, ◌≡◌, sym, subst, ◌⊎◌, inl, inr, true, false, ◌&&◌, Option, none, some, arith, [],
  ◌∷◌, Has, ◌++◌, JsString, ◌===◌, leb, Result, ok, err, pure, ◌>>=◌, filter, Bool-cases,
  Option-cases, Result-cases,
}
use movie_reservation_servic.Dates.{Dates}
use movie_reservation_servic.Domain.Ids.{create_uuid_id}
use movie_reservation_servic.Domain.Request.{processing, create_sequence}
use movie_reservation_servic.Work.{ClaimedReservationRequest, ClaimInput}
use movie_reservation_servic.Postgres.Rows.{Timestamp, ReservationRequestRow}
use movie_reservation_servic.Postgres.Mappers.{status_text}
use movie_reservation_servic.Postgres.Tables.{
  Tables, Engine, first, has_request_id, update_where, update_requests,
}
use movie_reservation_servic.Postgres.State.{
  fail_expired_claim, given_up, lease_timeout_attempt, attempt_row,
}
use movie_reservation_servic.Postgres.Claimer.{
  is_claimable, find_next_claimable, with_claim, claim_row, to_claimed, claim_if_selected,
  claim_selected, claim_body, claim_next,
}
use movie_reservation_servic.Postgres.Outcomes.{>>=-ok, insert_attempt-ok}
use movie_reservation_servic.Postgres.Atomic.{transaction-ok, transaction-err}
use movie_reservation_servic.Postgres.Fifo.{
  IsNext, IsItemOf, find_next_claimable-IsNext, find_next_claimable-none, claim_row-ok,
  to_claimed-IsItemOf,
}

module _ (e : Engine) (d : Dates) (input : ClaimInput) where
  -- The next request has been claimed for the worker.
  pub record Claimed (t t' : Tables) (item : ClaimedReservationRequest) : Type 0 where
    pub row : ReservationRequestRow
    pub next : IsNext e input t row
    pub in_budget :
        (row.status === status_text processing) ≡ true
        → row.lease_timeout_count < input.max_lease_timeouts
    pub stored : ReservationRequestRow
    pub found : first (filter (has_request_id row.id) t.requests) ≡ some stored
    pub claimed_at : Timestamp
    pub expires_at : Timestamp
    pub item_of :
        IsItemOf e d input
          (with_claim input claimed_at expires_at (row.status === status_text processing) stored)
          item
    pub after : t' ≡ record t {
      requests =
          update_where
            (has_request_id row.id)
            (with_claim input claimed_at expires_at (row.status === status_text processing))
            t.requests;
    }

  -- The next request has an expired claim and no lease timeout to spare: it has been failed.
  pub record GivenUp (t t' : Tables) : Type 0 where
    pub row : ReservationRequestRow
    pub next : IsNext e input t row
    pub expired : (row.status === status_text processing) ≡ true
    pub spent : input.max_lease_timeouts ≤ row.lease_timeout_count
    pub at : Timestamp
    pub id : JsString
    pub sequence : ℕ
    pub same_id : create_uuid_id row.id ≡ ok id
    pub same_sequence : create_sequence row.sequence ≡ ok sequence
    pub after : t' ≡ record t {
      requests = update_where (has_request_id row.id) (given_up at) t.requests;
      attempts =
          t.attempts ++ attempt_row at at (lease_timeout_attempt id sequence input.claimed_at) ∷ [];
    }

  -- No request may be claimed now, or another transaction has locked those that may.
  abbrev pub NothingNext : Tables → Type 0
  NothingNext t =
      (at : Timestamp)
      → e.timestamptz input.claimed_at ≡ ok at
      → (row : ReservationRequestRow) → Has row t.requests
      → is_claimable e input at row ≡ true
      → e.is_locked t row ≡ true

  -- What the result of a claim tells of the tables before it and after it.
  abbrev pub Ends : Result (Option ClaimedReservationRequest) → Tables → Tables → Type 0
  Ends (ok none) t t' = (NothingNext t × (t' ≡ t)) ⊎ GivenUp t t'
  Ends (ok (some item)) t t' = Claimed t t' item
  Ends (err x) t t' = t' ≡ t

  module _ (row : ReservationRequestRow) (t t' : Tables) (next : IsNext e input t row) where
    give_up-GivenUp :
        (row.status === status_text processing) ≡ true
        → input.max_lease_timeouts ≤ row.lease_timeout_count
        → fail_expired_claim e row input.claimed_at t ≡ (ok tt, t')
        → GivenUp t t'
    unfolding fail_expired_claim update_requests
    give_up-GivenUp expired spent h = elim (Result-cases (e.timestamptz input.claimed_at)) [
      | inr (x, bad) ↦ absurd (ground arith)
      | inl (at, e_at) ↦ elim (Result-cases (create_uuid_id row.id)) [
        | inr (x, bad) ↦ absurd (ground arith)
        | inl (id, e_id) ↦ elim (Result-cases (create_sequence row.sequence)) [
          | inr (x, bad) ↦ absurd (ground arith)
          | inl (n, e_n) ↦
              let t₁ : Tables = record t {
                requests = update_where (has_request_id row.id) (given_up at) t.requests;
              } in
              let (started, completed, e_s, e_c, same) =
                insert_attempt-ok e (lease_timeout_attempt id n input.claimed_at) t₁ t'
                  (ground arith) in
              record {
                row = row;
                next = next;
                expired = expired;
                spent = spent;
                at = at;
                id = id;
                sequence = n;
                same_id = e_id;
                same_sequence = e_n;
                after = ground arith;
              }
        ]
      ]
    ]

    claim_row-Claimed :
        (updated : ReservationRequestRow) (item : ClaimedReservationRequest) (t₁ : Tables)
        → row.status === status_text processing
            && leb input.max_lease_timeouts row.lease_timeout_count
          ≡ false
        → claim_row e row input (row.status === status_text processing) t ≡ (ok updated, t₁)
        → to_claimed e d input updated t₁ ≡ (ok item, t')
        → Claimed t t' item
    claim_row-Claimed updated item t₁ within e₁ e₂ =
        let (at, x, stored, e_at, e_x, found, same, after) =
          claim_row-ok e d input row updated (row.status === status_text processing) t t₁ e₁ in
        let (item_of, same₂) = to_claimed-IsItemOf e d input updated item t₁ t' e₂ in
        record {
          row = row;
          next = next;
          in_budget = λ p. ground arith;
          stored = stored;
          found = found;
          claimed_at = at;
          expires_at = x;
          item_of = subst (λ z. IsItemOf e d input z item) same item_of;
          after = ground arith;
        }

    claim_selected-Ends :
        (r : Option ClaimedReservationRequest)
        → claim_selected e d input row t ≡ (ok r, t')
        → Ends (ok r) t t'
    unfolding claim_selected
    claim_selected-Ends r h =
        elim (Bool-cases (
          row.status === status_text processing
          && leb input.max_lease_timeouts row.lease_timeout_count)) [
            | inl over ↦
                let (u, t₁, e₁, h₁) =
                  >>=-ok (fail_expired_claim e row input.claimed_at) (λ u. pure none) r t t'
                    (ground arith) in
                subst (λ o. Ends (ok o) t t') {x = none} {y = r} (ground arith)
                  (inr (give_up-GivenUp (ground arith) (ground arith) (ground arith)))
            | inr within ↦
                let (updated, t₁, e₁, h₁) =
                  >>=-ok (claim_row e row input (row.status === status_text processing))
                    (λ u. to_claimed e d input u >>= λ i. pure (some i)) r t t' (ground arith) in
                let (item, t₂, e₂, h₂) =
                  >>=-ok (to_claimed e d input updated) (λ i. pure (some i)) r t₁ t' h₁ in
                subst (λ o. Ends (ok o) t t') {x = some item} {y = r} (ground arith)
                  (claim_row-Claimed updated item t₁ within e₁ (ground arith))
          ]

  claim_body-Ends :
      (r : Option ClaimedReservationRequest) (t t' : Tables)
      → claim_body e d input t ≡ (ok r, t')
      → Ends (ok r) t t'
  unfolding claim_body
  claim_body-Ends r t t' h =
      let (selected, t₁, e₁, h₁) =
        >>=-ok (find_next_claimable e input) (claim_if_selected e d input) r t t' h in
      elim (Option-cases selected) [
        | inl nothing ↦
            let (none_next, same) = find_next_claimable-none e input t t₁ (ground arith) in
            let is_none : none ≡ r = ground arith in
            subst (λ o. Ends (ok o) t t') is_none (inl (none_next, ground arith))
        | inr (row, e_row) ↦
            let (next, same) = find_next_claimable-IsNext e input t t₁ row (ground arith) in
            claim_selected-Ends row t t' next r (ground arith)
      ]

  -- A claim ends in one of four ways, and the tables tell which. A work item: it is that of the
  -- claimable request with the least sequence number that no other transaction has locked, whose
  -- row is now PROCESSING under the worker's name and token, with one more lease timeout if it was
  -- PROCESSING before, and then with fewer of them than the limit. Nothing, and nothing written:
  -- every claimable row is locked. Nothing, and the next request failed with an attempt that says
  -- so: its claim has expired and its lease timeouts are spent. An error: nothing has been written.
  pub claim_next-Ends : (t : Tables) → Ends (claim_next e d input t).0 t (claim_next e d input t).1
  unfolding claim_next
  claim_next-Ends t =
      let body = claim_body e d input in
      let t' = (e.transaction body t).1 in
      elim (Result-cases (e.transaction body t).0) [
        | inl (r, good) ↦
            subst (λ z. Ends z t t') (sym good)
              (claim_body-Ends r t t' (transaction-ok e body t t' r (ground arith)))
        | inr (x, bad) ↦
            subst (λ z. Ends z t t') (sym bad) (transaction-err e body t t' x (ground arith))
      ]

  pub claim_next-Claimed :
      (t t' : Tables) (item : ClaimedReservationRequest)
      → claim_next e d input t ≡ (ok (some item), t')
      → Claimed t t' item
  claim_next-Claimed t t' item h = subst (λ p. Ends p.0 t p.1) h (claim_next-Ends t)
