-- ===== src/Postgres/Attempts.antt =====
-- Attempts, written by `insertProcessingAttempt` and read by
-- `findReservationRequestProcessingAttemptsByRequestId` of
-- postgres-reservation-request-state-store.ts.
use movie_reservation_servic.Prelude.{
  ◌≡◌, refl, sym, ap, ◌∙◌, subst, inl, inr, true, arith, List, [], ◌∷◌, ◌++◌, Bool, JsString, ◌===◌,
  ===_refl, Result, ok, filter, Bool-cases, Result-cases,
}
use movie_reservation_servic.Prelude.Results.{traverse}
use movie_reservation_servic.Dates.{Dates}
use movie_reservation_servic.Domain.Ids.{create_uuid_id}
use movie_reservation_servic.Domain.Request.{create_sequence}
use movie_reservation_servic.Work.{ProcessingAttempt}
use movie_reservation_servic.Postgres.Rows.{Timestamp, AttemptRow}
use movie_reservation_servic.Postgres.Mappers.{to_iso_text, to_attempt}
use movie_reservation_servic.Postgres.Tables.{Tables, Engine}
use movie_reservation_servic.Postgres.State.{
  attempt_row, attempt_base, insert_attempt, find_attempts,
}
use movie_reservation_servic.Postgres.Outcomes.{insert_attempt-ok, FailureReason-cases}

-- A time that a column gives back as it was written
abbrev pub ReadsBack : Engine → Dates → JsString → Type 0
ReadsBack e d s = (at : Timestamp) → e.timestamptz s ≡ ok at → to_iso_text d at ≡ ok s

abbrev NamesReservation : ProcessingAttempt → Type 0
NamesReservation (ProcessingAttempt.confirmed a) =
    create_uuid_id a.reservation_id ≡ ok a.reservation_id
NamesReservation (ProcessingAttempt.rejected a) =
    create_uuid_id a.conflicting_reservation_id ≡ ok a.conflicting_reservation_id
NamesReservation (ProcessingAttempt.failed a) = Unit

-- The ids and the number of an attempt are as the guards of the domain return them.
pub record IsGuarded (a : ProcessingAttempt) : Type 0 where
  pub id :
      create_uuid_id (attempt_base a).reservation_request_id
      ≡ ok (attempt_base a).reservation_request_id
  pub sequence : create_sequence (attempt_base a).sequence ≡ ok (attempt_base a).sequence
  pub reservation : NamesReservation a

to_attempt-attempt_row :
    (d : Dates) (a : ProcessingAttempt) (started completed : Timestamp)
    → IsGuarded a
    → to_iso_text d started ≡ ok (attempt_base a).started_at
    → to_iso_text d completed ≡ ok (attempt_base a).completed_at
    → to_attempt d (attempt_row started completed a) ≡ ok a
unfolding to_attempt attempt_row ◌===◌
to_attempt-attempt_row d (ProcessingAttempt.confirmed a) started completed g s c =
    rw (g.id, g.sequence, s, c, g.reservation) refl
to_attempt-attempt_row d (ProcessingAttempt.rejected a) started completed g s c =
    rw (g.id, g.sequence, s, c, g.reservation) refl
to_attempt-attempt_row d (ProcessingAttempt.failed a) started completed g s c =
    elim (FailureReason-cases a.reason) [
      | inl e ↦ ground (arith, g.id, g.sequence, s, c)
      | inr e ↦ ground (arith, g.id, g.sequence, s, c)
    ]

pub filter-append :
    {A : Type 0} (p : A → Bool) (xs ys : List A) → filter p (xs ++ ys) ≡ filter p xs ++ filter p ys
unfolding filter
filter-append p [] ys = refl
filter-append p (x ∷ xs) ys = elim (Bool-cases (p x)) [
  | inl e ↦ rw e (ap (λ r. x ∷ r) (filter-append p xs ys))
  | inr e ↦ rw e (filter-append p xs ys)
]

filter-one : {A : Type 0} (p : A → Bool) (x : A) → p x ≡ true → filter p (x ∷ []) ≡ x ∷ []
unfolding filter
filter-one p x h = ground (arith, h)

pub attempt_row-request_id :
    (a : ProcessingAttempt) (started completed : Timestamp)
    → (attempt_row started completed a).reservation_request_id
      ≡ (attempt_base a).reservation_request_id
unfolding attempt_row
attempt_row-request_id (ProcessingAttempt.confirmed a) started completed = refl
attempt_row-request_id (ProcessingAttempt.rejected a) started completed = refl
attempt_row-request_id (ProcessingAttempt.failed a) started completed = refl

traverse-snoc :
    {A B : Type 0} (f : A → Result B) (xs : List A) (x : A) (ys : List B) (y : B)
    → traverse f xs ≡ ok ys
    → f x ≡ ok y
    → traverse f (xs ++ x ∷ []) ≡ ok (ys ++ y ∷ [])
unfolding traverse
traverse-snoc f [] x ys y h k = ground arith
traverse-snoc f (z ∷ xs) x ys y h k = elim (Result-cases (f z)) [
  | inr (q, bad) ↦ absurd (ground arith)
  | inl (w, e_w) ↦ elim (Result-cases (traverse f xs)) [
    | inr (q, bad) ↦ absurd (ground arith)
    | inl (ws, e_ws) ↦ ground (arith, traverse-snoc f xs x ws y e_ws k)
  ]
]

-- An attempt that has been inserted is read back as it was, after those of its request that were
-- there. Its ids and its number are guarded, and its times are ones that the columns give back.
pub find_attempts-insert_attempt :
    (e : Engine) (d : Dates) (a : ProcessingAttempt) (t t' : Tables)
    (before : List ProcessingAttempt)
    → IsGuarded a
    → ReadsBack e d (attempt_base a).started_at
    → ReadsBack e d (attempt_base a).completed_at
    → find_attempts d (attempt_base a).reservation_request_id t ≡ ok before
    → insert_attempt e a t ≡ (ok tt, t')
    → find_attempts d (attempt_base a).reservation_request_id t' ≡ ok (before ++ a ∷ [])
unfolding find_attempts
find_attempts-insert_attempt e d a t t' before g s c h k =
    let (started, completed, e_s, e_c, same) = insert_attempt-ok e a t t' k in
    let row = attempt_row started completed a in
    let mine =
      λ (r : AttemptRow). r.reservation_request_id === (attempt_base a).reservation_request_id in
    let last : filter mine (t.attempts ++ row ∷ []) ≡ filter mine t.attempts ++ row ∷ [] =
      filter-append mine t.attempts (row ∷ [])
      ∙ rw
          (filter-one mine row (
            subst (λ i. i === (attempt_base a).reservation_request_id ≡ true)
              (sym (attempt_row-request_id a started completed))
              (===_refl (attempt_base a).reservation_request_id)))
          refl in
    subst (λ x. traverse (to_attempt d) (filter mine x.attempts) ≡ ok (before ++ a ∷ [])) (sym same)
      (rw last (
        traverse-snoc (to_attempt d) (filter mine t.attempts) row before a h
          (to_attempt-attempt_row d a started completed g (s started e_s) (c completed e_c))))
