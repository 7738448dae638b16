-- ===== src/Postgres/Alike.antt =====
-- What a row and the in-memory store tell of one request, of its claim and of its attempts.
use movie_reservation_servic.Prelude.{
  ◌≡◌, refl, sym, ap, ◌∙◌, subst, true, false, Option, none, some, List, [], ◌∷◌, ◌++◌, filter,
  JsString, ◌===◌, ===_iff, ok, if◌then◌else◌, Bool-cases, inl, inr, arith,
}
use movie_reservation_servic.Prelude.JsMap.{get, get-set}
use movie_reservation_servic.Domain.Request.{ReservationRequest}
use movie_reservation_servic.Work.{ProcessingAttempt}
use movie_reservation_servic.Memory.Store.{Store, WorkMetadata, or_empty, base_of}
use movie_reservation_servic.Memory.Reads.{find_attempts_by_request_id}
use movie_reservation_servic.Memory.Owned.{attempts_with}
use movie_reservation_servic.Postgres.Rows.{Timestamp, ReservationRequestRow, AttemptRow}
use movie_reservation_servic.Postgres.Mappers.{status_text}
use movie_reservation_servic.Postgres.Tables.{Engine}
use movie_reservation_servic.Postgres.State.{attempt_row, attempt_base}
use movie_reservation_servic.Postgres.Attempts.{filter-append, attempt_row-request_id}

-- A column and a field that are both unset, or a column that holds the field's time
pub data SameTime (e : Engine) : Option Timestamp → Option JsString → Type 0 where
  unset : SameTime e none none
  holds :
      (column : Timestamp) (field : JsString)
      → e.timestamptz field ≡ ok column
      → SameTime e (some column) (some field)

-- A row that tells what the in-memory store tells of a request and its claim
pub record SameRequest (e : Engine) (row : ReservationRequestRow) (r : ReservationRequest)
    (m : WorkMetadata) : Type 0 where
  pub id : row.id ≡ r.id
  pub movie_provider_id : row.movie_provider_id ≡ r.movie_provider_id
  pub screening_id : row.screening_id ≡ r.screening_id
  pub requested_by_user_id : row.requested_by_user_id ≡ r.requested_by_user_id
  pub sequence : row.sequence ≡ m.sequence
  pub status : row.status ≡ status_text r.status
  pub claimed_by : row.claimed_by ≡ m.claimed_by
  pub claim_token : row.claim_token ≡ m.claim_token
  pub claimed_at : SameTime e row.claimed_at m.claimed_at
  pub claim_expires_at : SameTime e row.claim_expires_at m.claim_expires_at
  pub last_heartbeat_at : SameTime e row.last_heartbeat_at m.last_heartbeat_at
  pub lease_timeout_count : row.lease_timeout_count ≡ m.lease_timeout_count
  pub transient_failure_count : row.transient_failure_count ≡ m.transient_failure_count

-- A row that holds the attempt
abbrev pub SameAttempt : Engine → AttemptRow → ProcessingAttempt → Type 0
SameAttempt e row a =
    (started : Timestamp) × (completed : Timestamp) × (e.timestamptz (attempt_base a).started_at
      ≡ ok started)
    × (e.timestamptz (attempt_base a).completed_at ≡ ok completed)
    × (row ≡ attempt_row started completed a)

-- The rows hold the attempts, one by one and in order.
abbrev pub SameAttempts : Engine → List AttemptRow → List ProcessingAttempt → Type 0
SameAttempts e [] [] = Unit
SameAttempts e [] (a ∷ attempts) = ⊥
SameAttempts e (row ∷ rows) [] = ⊥
SameAttempts e (row ∷ rows) (a ∷ attempts) = SameAttempt e row a × SameAttempts e rows attempts

abbrev pub attempt_rows_of : JsString → List AttemptRow → List AttemptRow
attempt_rows_of id rows = filter (λ x. x.reservation_request_id === id) rows

SameAttempts-snoc :
    (e : Engine) (rows : List AttemptRow) (attempts : List ProcessingAttempt) (row : AttemptRow)
    (a : ProcessingAttempt)
    → SameAttempts e rows attempts
    → SameAttempt e row a
    → SameAttempts e (rows ++ row ∷ []) (attempts ++ a ∷ [])
SameAttempts-snoc e [] [] row a all new = (new, tt)
SameAttempts-snoc e [] (b ∷ attempts) row a all new = absurd all
SameAttempts-snoc e (x ∷ rows) [] row a all new = absurd all
SameAttempts-snoc e (x ∷ rows) (b ∷ attempts) row a all new =
    (all.0, SameAttempts-snoc e rows attempts row a all.1 new)

pub base_of-attempt_base : (a : ProcessingAttempt) → base_of a ≡ attempt_base a
base_of-attempt_base (ProcessingAttempt.confirmed a) = refl
base_of-attempt_base (ProcessingAttempt.rejected a) = refl
base_of-attempt_base (ProcessingAttempt.failed a) = refl

keeps_last :
    (id : JsString) (row : AttemptRow)
    → row.reservation_request_id === id ≡ true
    → attempt_rows_of id (row ∷ []) ≡ row ∷ []
unfolding filter
keeps_last id row h = rw h refl

drops_last :
    (id : JsString) (row : AttemptRow)
    → row.reservation_request_id === id ≡ false
    → attempt_rows_of id (row ∷ []) ≡ []
unfolding filter
drops_last id row h = rw h refl

append_nil : {A : Type 0} (xs : List A) → xs ++ [] ≡ xs
append_nil [] = refl
append_nil (x ∷ xs) = ap (λ ys. x ∷ ys) (append_nil xs)

module _ (e : Engine) (id : JsString) (s s' : Store) (rows : List AttemptRow) (row : AttemptRow)
    (a : ProcessingAttempt) where
  -- One more attempt on both sides, of this request or of another, keeps them alike.
  pub attempts_recorded :
      s'.processing_attempts ≡ attempts_with s.processing_attempts a
      → SameAttempt e row a
      → SameAttempts e (attempt_rows_of id rows) (find_attempts_by_request_id id s)
      → SameAttempts e (attempt_rows_of id (rows ++ row ∷ [])) (find_attempts_by_request_id id s')
  unfolding find_attempts_by_request_id
  attempts_recorded noted new all =
      let key = (base_of a).reservation_request_id in
      let known = or_empty (get s.processing_attempts key) in
      let (started, completed, e_s, e_c, written) = new in
      let named : row.reservation_request_id ≡ key =
        ap (λ x. x.reservation_request_id) written
        ∙ attempt_row-request_id a started completed
        ∙ sym (ap (λ x. x.reservation_request_id) (base_of-attempt_base a)) in
      let after : attempt_rows_of id (rows ++ row ∷ [])
          ≡ attempt_rows_of id rows ++ attempt_rows_of id (row ∷ []) =
        filter-append (λ x. x.reservation_request_id === id) rows (row ∷ []) in
      let found : get s'.processing_attempts id
          ≡ (if key === id then some (known ++ a ∷ []) else get s.processing_attempts id) =
        ap (λ x. get x id) noted ∙ get-set s.processing_attempts key (known ++ a ∷ []) id in
      elim (Bool-cases (key === id)) [
        | inl mine ↦
            let kept : attempt_rows_of id (row ∷ []) ≡ row ∷ [] =
              keeps_last id row (ap (λ x. x === id) named ∙ mine) in
            let told : or_empty (get s'.processing_attempts id)
                ≡ or_empty (get s.processing_attempts id) ++ a ∷ [] =
              ground (arith, found, ===_iff key id) in
            subst (λ x. SameAttempts e x (or_empty (get s'.processing_attempts id)))
              (sym (after ∙ ap (λ x. attempt_rows_of id rows ++ x) kept))
              (subst (SameAttempts e (attempt_rows_of id rows ++ row ∷ [])) (sym told) (
                SameAttempts-snoc e (attempt_rows_of id rows)
                  (or_empty (get s.processing_attempts id)) row a all new))
        | inr other ↦
            let dropped : attempt_rows_of id (row ∷ []) ≡ [] =
              drops_last id row (ap (λ x. x === id) named ∙ other) in
            let told : get s'.processing_attempts id ≡ get s.processing_attempts id =
              rw other at found in
            subst (λ x. SameAttempts e x (or_empty (get s'.processing_attempts id)))
              (sym (after ∙ ap (λ x. attempt_rows_of id rows ++ x) dropped ∙ append_nil _))
              (subst (λ x. SameAttempts e (attempt_rows_of id rows) (or_empty x)) (sym told) all)
      ]
