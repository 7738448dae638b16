-- ===== src/Postgres/Simulation.antt =====
-- The settlements of the two adapters of the work repository, PostgreSQL and in-memory, side by
-- side.
use movie_reservation_servic.Prelude.{
  ℕ, ◌≡◌, refl, sym, ap, ◌∙◌, subst, Bool, true, false, some, arith, filter, JsString, ◌===◌, Exec,
  ok,
}
use mathlib.Core.Option.{some-injective}
use movie_reservation_servic.Prelude.JsMap.{get, set, get-set_self}
use movie_reservation_servic.Domain.Request.{
  ReservationRequestStatus, requested, processing, rejected, failed, ReservationRequest,
  create_sequence,
}
use movie_reservation_servic.Work.{
  ClaimedReservationRequest, RejectedAttempt, FailedAttempt, ProcessingAttempt,
}
use movie_reservation_servic.Memory.Store.{Store, WorkMetadata}
use movie_reservation_servic.Memory.Metadata.{unclaimed}
use movie_reservation_servic.Memory.Settle
use movie_reservation_servic.Memory.Settle.{release_claimed}
use movie_reservation_servic.Memory.Owned.{
  IsOwned, is_text_iff, settled, failed_once, reject_claimed_lem, fail_claimed_lem,
  release_claimed_lem,
}
use movie_reservation_servic.Memory.Owned
use movie_reservation_servic.Memory.Reads.{find_attempts_by_request_id}
use movie_reservation_servic.Postgres.Rows.{ReservationRequestRow}
use movie_reservation_servic.Postgres.Alike.{
  SameRequest, unset, SameAttempts, attempt_rows_of, attempts_recorded,
}
use movie_reservation_servic.Postgres.Mappers.{status_text}
use movie_reservation_servic.Postgres.Tables.{Tables, Engine, first, has_request_id}
use movie_reservation_servic.Postgres.State.{
  settle, with_status, find_request_seat_ids, attempt_row, reject_claimed, release_for_retry,
  fail_claimed,
}
use movie_reservation_servic.Postgres.Claimer.{is_held}
use movie_reservation_servic.Postgres.Held.{Owns}
use movie_reservation_servic.Postgres.Atomic.{Settled, transaction-ok, settle-Settled}
use movie_reservation_servic.Postgres.Leases.{filter-update_where, first-map}
use movie_reservation_servic.Postgres.Agreement.{status_text-same_status}

-- The store and the tables tell the same of one request: of its state and claim, its seats and its
-- attempts.
pub record Simulates (e : Engine) (id : JsString) (s : Store) (t : Tables) : Type 0 where
  pub r : ReservationRequest
  pub m : WorkMetadata
  pub row : ReservationRequestRow
  pub stored : get s.requests id ≡ some r
  pub tracked : get s.work_metadata id ≡ some m
  pub found : first (filter (has_request_id id) t.requests) ≡ some row
  pub named : r.id ≡ id
  pub same : SameRequest e row r m
  pub seats : (find_request_seat_ids e id t).0 ≡ ok r.seat_ids
  pub attempts : SameAttempts e (attempt_rows_of id t.attempts) (find_attempts_by_request_id id s)

create_sequence-eq-ok : (n k : ℕ) → create_sequence n ≡ ok k → n ≡ k
unfolding create_sequence
create_sequence-eq-ok n k h = ground arith

is_processing :
    (s : ReservationRequestStatus)
    → status_text s === status_text processing ≡ true
    → s ≡ processing
is_processing s h = ground (arith, status_text-same_status s processing)

module _ (e : Engine) (item : ClaimedReservationRequest) (s : Store) (t : Tables)
    (sim : Simulates e item.reservation_request.id s t) where
  -- Who owns the claim in the tables owns it in the store.
  pub Owns-IsOwned : (row : ReservationRequestRow) → Owns item t row → IsOwned s item sim.r sim.m
  unfolding is_held
  Owns-IsOwned row o =
      let same_row : row ≡ sim.row = some-injective row sim.row (sym o.found ∙ sim.found) in
      let held = subst (λ x. is_held item x ≡ true) same_row o.held in
      record {
        stored = sim.stored;
        tracked = sim.tracked;
        in_order =
            sym sim.same.sequence
            ∙ sym (ap (λ x. x.sequence) same_row)
            ∙ create_sequence-eq-ok row.sequence item.sequence o.same_sequence;
        claimed_by =
            sym sim.same.claimed_by
            ∙ (is_text_iff sim.row.claimed_by item.claimed_by).0 (ground (arith, held));
        claim_token =
            sym sim.same.claim_token
            ∙ (is_text_iff sim.row.claim_token item.claim_token).0 (ground (arith, held));
        status = is_processing sim.r.status (
            subst (λ x. x === status_text processing ≡ true) sim.same.status
              (ground (arith, held)));
      }

  -- A settlement keeps them alike, when the metadata are unclaimed and count as the row does.
  Settled-Simulates :
      (status : ReservationRequestStatus) (increments : Bool) (attempt : ProcessingAttempt)
      (q : ReservationRequest) (t' : Tables) (m' : WorkMetadata)
      → Settled e item status increments attempt q t t'
      → SameRequest e
          (with_status e t status increments sim.row)
          (Owned.with_status sim.r status)
          m'
      → Simulates e item.reservation_request.id
          (settled s (Owned.with_status sim.r status) m' attempt)
          t'
  unfolding find_request_seat_ids
  Settled-Simulates status increments attempt q t' m' h same =
      let r' = Owned.with_status sim.r status in
      let s' = settled s r' m' attempt in
      record {
        r = r';
        m = m';
        row = with_status e t status increments sim.row;
        stored =
            subst (λ i. get (set s.requests sim.r.id r') i ≡ some r') sim.named
              (get-set_self s.requests sim.r.id r');
        tracked =
            subst (λ i. get (set s.work_metadata sim.r.id m') i ≡ some m') sim.named
              (get-set_self s.work_metadata sim.r.id m');
        found =
            ap (λ x. first (filter (has_request_id item.reservation_request.id) x.requests)) h.after
            ∙ ap first (
                filter-update_where (has_request_id item.reservation_request.id)
                  (with_status e t status increments) t.requests (λ a. refl))
            ∙ first-map (with_status e t status increments)
                (filter (has_request_id item.reservation_request.id) t.requests) sim.row sim.found;
        named = sim.named;
        same = same;
        seats =
            ap (λ x. (find_request_seat_ids e item.reservation_request.id x).0) h.after ∙ sim.seats;
        attempts =
            subst
              (λ x.
                SameAttempts e (attempt_rows_of item.reservation_request.id x)
                  (find_attempts_by_request_id item.reservation_request.id s'))
              (sym (ap (λ x. x.attempts) h.after))
              (attempts_recorded e item.reservation_request.id s s' t.attempts
                (attempt_row h.started h.completed attempt) attempt refl
                (h.started, h.completed, h.started_at, h.completed_at, refl) sim.attempts);
      }

-- A row and metadata that both count one more transient failure and have no owner
once_more :
    {id : JsString} {s : Store} (e : Engine) (t : Tables) (sim : Simulates e id s t)
    (status : ReservationRequestStatus)
    → SameRequest e
        (with_status e t status true sim.row)
        (Owned.with_status sim.r status)
        (failed_once sim.m)
once_more e t sim status = record {
  id = sim.same.id;
  movie_provider_id = sim.same.movie_provider_id;
  screening_id = sim.same.screening_id;
  requested_by_user_id = sim.same.requested_by_user_id;
  sequence = sim.same.sequence;
  status = refl;
  claimed_by = refl;
  claim_token = refl;
  claimed_at = unset;
  claim_expires_at = unset;
  last_heartbeat_at = unset;
  lease_timeout_count = sim.same.lease_timeout_count;
  transient_failure_count = omega (arith, sim.same.transient_failure_count);
}

-- How a worker may end a claim that it does not confirm
pub data Settlement : Type 0 where
  reject : RejectedAttempt → Settlement
  release : FailedAttempt → Settlement
  give_up : FailedAttempt → Settlement

abbrev pub in_tables :
    Engine → ClaimedReservationRequest → Settlement → Exec Tables ReservationRequest
in_tables e item (reject a) = reject_claimed e item a
in_tables e item (release a) = release_for_retry e item a
in_tables e item (give_up a) = fail_claimed e item a

abbrev pub in_store : ClaimedReservationRequest → Settlement → Exec Store ReservationRequest
in_store item (reject a) = Settle.reject_claimed item a
in_store item (release a) = Settle.release_claimed item a
in_store item (give_up a) = Settle.fail_claimed item a

-- In rejecting, releasing and failing a claimed request, the PostgreSQL work repository refines the
-- in-memory one. Where the tables and the store tell the same of the request (its ids, seats, number
-- and status, its owner, token and three claim times, its two counts, and its attempts in order),
-- every such call that the tables accept the store accepts too, with the same status, and afterwards
-- they tell the same of all of it again.
pub in_tables-Simulates :
    (e : Engine) (item : ClaimedReservationRequest) (how : Settlement) (s : Store) (t t' : Tables)
    (q : ReservationRequest)
    → Simulates e item.reservation_request.id s t
    → in_tables e item how t ≡ (ok q, t')
    → (q' : ReservationRequest) × (s' : Store) × (in_store item how s ≡ (ok q', s'))
      × (q'.status ≡ q.status)
      × Simulates e item.reservation_request.id s' t'
unfolding reject_claimed release_for_retry fail_claimed
in_tables-Simulates e item (reject a) s t t' q sim h =
    let attempt = ProcessingAttempt.rejected a in
    let done =
      settle-Settled e item rejected false attempt q t t'
        (transaction-ok e (settle e item rejected false attempt) t t' q h) in
    let owned = Owns-IsOwned e item s t sim done.row done.owned in
    (
      Owned.with_status sim.r rejected,
      settled s (Owned.with_status sim.r rejected) (unclaimed sim.m) attempt,
      reject_claimed_lem item s sim.r sim.m owned sim.named a,
      sym done.answered,
      Settled-Simulates e item s t sim rejected false attempt q t' (unclaimed sim.m) done (record {
        id = sim.same.id;
        movie_provider_id = sim.same.movie_provider_id;
        screening_id = sim.same.screening_id;
        requested_by_user_id = sim.same.requested_by_user_id;
        sequence = sim.same.sequence;
        status = refl;
        claimed_by = refl;
        claim_token = refl;
        claimed_at = unset;
        claim_expires_at = unset;
        last_heartbeat_at = unset;
        lease_timeout_count = sim.same.lease_timeout_count;
        transient_failure_count = sim.same.transient_failure_count;
      }),
    )
in_tables-Simulates e item (release a) s t t' q sim h =
    let attempt = ProcessingAttempt.failed a in
    let done =
      settle-Settled e item requested true attempt q t t'
        (transaction-ok e (settle e item requested true attempt) t t' q h) in
    let owned = Owns-IsOwned e item s t sim done.row done.owned in
    (
      Owned.with_status sim.r requested,
      settled s (Owned.with_status sim.r requested) (failed_once sim.m) attempt,
      release_claimed_lem item s sim.r sim.m owned sim.named a,
      sym done.answered,
      Settled-Simulates e item s t sim requested true attempt q t' (failed_once sim.m) done
          (once_more e t sim requested),
    )
in_tables-Simulates e item (give_up a) s t t' q sim h =
    let attempt = ProcessingAttempt.failed a in
    let done =
      settle-Settled e item failed true attempt q t t'
        (transaction-ok e (settle e item failed true attempt) t t' q h) in
    let owned = Owns-IsOwned e item s t sim done.row done.owned in
    (
      Owned.with_status sim.r failed,
      settled s (Owned.with_status sim.r failed) (failed_once sim.m) attempt,
      fail_claimed_lem item s sim.r sim.m owned sim.named a,
      sym done.answered,
      Settled-Simulates e item s t sim failed true attempt q t' (failed_once sim.m) done
          (once_more e t sim failed),
    )
