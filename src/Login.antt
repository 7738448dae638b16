-- ===== src/Login.antt =====
-- src/application/authentication/demo-login.service.ts. The verifier and the audit recorder are
-- parameters.
use movie_reservation_servic.Prelude.{
  ℕ, ◌≤◌, ◌≡◌, ◌↔◌, Bool, true, false, not, ◌||◌, Option, none, some, JsString, text, length, ltb,
  ◌==◌, if◌then◌else◌, arith, inl, inr, refl, ◌⊎◌,
}
use movie_reservation_servic.Json.{Json, undefined, null, string, object, Fields, lookup}

-- src/application/audit/authentication-audit-attempt.ts
pub data FailureReason : Type 0 where
  invalid_credentials missing_credentials malformed_credentials invalid_token unauthenticated :
      FailureReason

pub data Outcome : Type 0 where
  authenticated : Outcome
  refused : FailureReason → Outcome

pub record AuditReceipt : Type 0 where
  pub request_id : JsString
  pub audit_event_id : JsString
  pub trace_id : Option JsString

-- What `audit.record` does: it resolves, rejects with `AuditEmissionUnavailableError`, or rejects
-- with another error.
pub data Recorded : Type 0 where
  receipt : AuditReceipt → Recorded
  emission_unavailable : Recorded
  other_failure : ℕ → Recorded

-- `DemoLoginResult`; the message follows from the decision.
pub record LoginResult : Type 0 where
  pub decision : Bool
  pub receipt : Option AuditReceipt

pub data LoginAnswer : Type 0 where
  answered : LoginResult → LoginAnswer
  thrown : ℕ → LoginAnswer

module _ (matches : JsString → JsString → Bool) where
  -- The checks of two credentials that are there.
  abbrev check : Json → Json → Outcome
  check (string username) (string password) =
      if ltb 256 (length username) || ltb 1024 (length password)
      then refused malformed_credentials
      else if length username == 0 || length password == 0
      then refused missing_credentials
      else if not (matches username password)
      then refused invalid_credentials
      else authenticated
  check undefined password = refused missing_credentials
  check username undefined = refused missing_credentials
  check username password = refused malformed_credentials

  unfoldable pub authenticate : Json → Outcome
  authenticate undefined = refused missing_credentials
  authenticate null = refused missing_credentials
  authenticate (object credentials) =
      check (lookup credentials (text "username")) (lookup credentials (text "password"))
  authenticate body = refused malformed_credentials

  abbrev is_authenticated : Outcome → Bool
  is_authenticated authenticated = true
  is_authenticated (refused reason) = false

  -- The end of `login`, by the outcome and by what the recorder did.
  abbrev answer : Outcome → Recorded → LoginAnswer
  answer outcome (receipt r) =
      answered (record { decision = is_authenticated outcome; receipt = some r })
  answer outcome emission_unavailable =
      answered (record { decision = is_authenticated outcome; receipt = none })
  answer outcome (other_failure e) = thrown e

  -- `login`; the recorder sees the outcome.
  unfoldable pub login : (Outcome → Recorded) → Json → LoginAnswer
  login audit body = answer (authenticate body) (audit (authenticate body))

  -- Credentials that the verifier accepts: two strings, not empty, and not too long.
  abbrev pub IsLogin : Json → Type 0
  IsLogin body =
      (fields : Fields) × (username : JsString) × (password : JsString) × (body ≡ object fields)
      × (lookup fields (text "username") ≡ string username)
      × (lookup fields (text "password") ≡ string password)
      × (1 ≤ length username)
      × (length username ≤ 256)
      × (1 ≤ length password)
      × (length password ≤ 1024)
      × (matches username password ≡ true)

  check-cases :
      (u p : Json)
      → ((username : JsString) × (password : JsString) × (u ≡ string username)
          × (p ≡ string password))
        ⊎ ¬ (check u p ≡ authenticated)
  check-cases (string username) (string password) = inl (username, password, refl, refl)
  check-cases undefined p = inr (λ e. ground arith)
  check-cases u p = inr (λ e. ground arith)

  module _ (fields : Fields) where
    object_iff : (authenticate (object fields) ≡ authenticated) ↔ IsLogin (object fields)
    unfolding authenticate
    object_iff =
        elim (check-cases (lookup fields (text "username")) (lookup fields (text "password"))) [
          | inr never ↦ (λ h. absurd (never h), λ h. ground arith)
          | inl (u, p, eu, ep) ↦ (
            λ h.
                let fits : (1 ≤ length u)
                    × (length u ≤ 256)
                    × (1 ≤ length p)
                    × (length p ≤ 1024)
                    × (matches u p ≡ true) =
                  ground arith in
                let (some_name, name_fits, some_password, password_fits, good) = fits in
                (
                  fields, u, p, refl, eu, ep, some_name, name_fits, some_password, password_fits,
                  good,
                ),
            λ h. ground arith,
          )
        ]

  -- A login is authenticated exactly when its body is an object with a user name of 1 to 256 and a
  -- password of 1 to 1024 units that the verifier accepts.
  pub authenticate_iff : (body : Json) → (authenticate body ≡ authenticated) ↔ IsLogin body
  unfolding authenticate
  authenticate_iff (object fields) = object_iff fields
  authenticate_iff body = ground arith

  answer_lem :
      (outcome : Outcome) (recorded : Recorded) (result : LoginResult)
      → answer outcome recorded ≡ answered result
      → ((result.decision ≡ true) ↔ (outcome ≡ authenticated))
        × ((result.receipt ≡ none) ↔ (recorded ≡ emission_unavailable))
  answer_lem authenticated (receipt r) result h = ground arith
  answer_lem (refused reason) (receipt r) result h = ground arith
  answer_lem authenticated emission_unavailable result h = ground arith
  answer_lem (refused reason) emission_unavailable result h = ground arith
  answer_lem outcome (other_failure e) result h = absurd (ground arith)

  -- When a login answers, its decision is that of the credentials alone, and it has no receipt
  -- exactly when the audit was unavailable.
  pub login-decision :
      (audit : Outcome → Recorded) (body : Json) (result : LoginResult)
      → login audit body ≡ answered result
      → ((result.decision ≡ true) ↔ (authenticate body ≡ authenticated))
        × ((result.receipt ≡ none) ↔ (audit (authenticate body) ≡ emission_unavailable))
  unfolding login
  login-decision audit body result h = answer_lem _ _ result h
