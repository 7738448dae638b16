-- ===== src/Audit/Response.antt =====
-- packages/audit-sdk/src/eventbridge/inspect-put-events-response.ts. A count is a natural number.
use movie_reservation_servic.Prelude.{
  ℕ, ◌≡◌, ◌≢◌, ◌↔◌, Bool, true, false, not, ◌||◌, Option, none, some, List, [], ◌∷◌, JsString, text,
  ◌===◌, ltb, ◌==◌, if◌then◌else◌, length, arith, ap, refl, sym, subst, Option-cases, inl, inr,
}
use mathlib.Core.Option.{some-injective}
use movie_reservation_servic.Domain.Ids.{trim}

pub data FailureReason : Type 0 where
  timeout aborted rejected throttled configuration unavailable : FailureReason

-- `AuditPublishResult`
pub data PublishResult : Type 0 where
  accepted : (audit_event_id : JsString) → (transport_event_id : Option JsString) → PublishResult
  refused : (audit_event_id : JsString) → FailureReason → PublishResult

pub record ResultEntry : Type 0 where
  pub event_id : Option JsString
  pub error_code : Option JsString
  pub error_message : Option JsString

pub record PutEventsResponse : Type 0 where
  pub failed_entry_count : Option ℕ
  pub entries : Option (List ResultEntry)

unfoldable pub determine_reason : JsString → FailureReason
determine_reason code =
    if code === text "ThrottlingException"
    then throttled
    else if code === text "InternalFailure"
    then unavailable
    else if code === text "AccessDeniedException"
    then configuration
    else rejected

abbrev is_some : Option JsString → Bool
is_some none = false
is_some (some s) = true

-- `s === undefined || s.trim().length === 0`
abbrev is_blank : Option JsString → Bool
is_blank none = true
is_blank (some s) = length (trim s) == 0

abbrev or_text : Option JsString → JsString
or_text none = []
or_text (some s) = s

-- The part for `failedEntryCount === 0`.
abbrev inspect_success : ResultEntry → JsString → PublishResult
inspect_success entry id =
    if is_some entry.error_code || is_some entry.error_message
    then refused id unavailable
    else if is_blank entry.event_id
    then refused id unavailable
    else accepted id entry.event_id

-- The part for `failedEntryCount === 1`.
abbrev inspect_failure : ResultEntry → JsString → PublishResult
inspect_failure entry id =
    if is_some entry.event_id || is_blank entry.error_code || not (is_some entry.error_message)
    then refused id unavailable
    else refused id (determine_reason (or_text entry.error_code))

abbrev inspect_entry : ResultEntry → Option ℕ → JsString → PublishResult
inspect_entry entry none id = refused id unavailable
inspect_entry entry (some failed_entry_count) id =
    if ltb 1 failed_entry_count
    then refused id unavailable
    else if failed_entry_count == 0
    then inspect_success entry id
    else inspect_failure entry id

unfoldable pub inspect_put_events_response : PutEventsResponse → JsString → PublishResult
unfolding determine_reason
inspect_put_events_response response id = elim response.entries [
  | none ↦ refused id unavailable
  | some [] ↦ refused id unavailable
  | some (entry ∷ []) ↦ inspect_entry entry response.failed_entry_count id
  | some (entry ∷ (other ∷ rest)) ↦ refused id unavailable
]

-- A response that proves that the bus took the one event.
abbrev pub IsTaken : Option ℕ → Option (List ResultEntry) → JsString → Type 0
IsTaken failed_entry_count entries event_id =
    (failed_entry_count ≡ some 0)
    × ((entry : ResultEntry) × (entries ≡ some (entry ∷ []))
        × (entry.event_id ≡ some event_id)
        × (entry.error_code ≡ none)
        × (entry.error_message ≡ none))
    × (trim event_id ≢ [])

length-eq-zero : (s : JsString) → ((length s == 0) ≡ true) ↔ (s ≡ [])
length-eq-zero [] = ground arith
length-eq-zero (c ∷ s) = ground arith

is_some_iff : (o : Option JsString) → (is_some o ≡ false) ↔ (o ≡ none)
is_some_iff none = ground arith
is_some_iff (some s) = ground arith

event_id_iff :
    (o : Option JsString) (event_id : JsString)
    → ((o ≡ some event_id) × (is_blank o ≡ false)) ↔ ((o ≡ some event_id) × (trim event_id ≢ []))
event_id_iff none event_id = ground arith
event_id_iff (some s) event_id = ground (arith, length-eq-zero (trim s))

inspect_success_iff :
    (entry : ResultEntry) (id audit_event_id event_id : JsString)
    → (inspect_success entry id ≡ accepted audit_event_id (some event_id)) ↔ (
        (audit_event_id ≡ id)
        × (entry.event_id ≡ some event_id)
        × (entry.error_code ≡ none)
        × (entry.error_message ≡ none)
        × (trim event_id ≢ []))
inspect_success_iff entry id audit_event_id event_id = ground (
  arith,
  is_some_iff entry.error_code,
  is_some_iff entry.error_message,
  event_id_iff entry.event_id event_id,
)

inspect_iff :
    (failed_entry_count : Option ℕ) (entries : Option (List ResultEntry))
    (id audit_event_id event_id : JsString)
    → (inspect_put_events_response
          (record { failed_entry_count = failed_entry_count; entries = entries })
          id
        ≡ accepted audit_event_id (some event_id))
      ↔ ((audit_event_id ≡ id) × IsTaken failed_entry_count entries event_id)
unfolding inspect_put_events_response
inspect_iff count none id a e = ground arith
inspect_iff count (some []) id a e = ground arith
inspect_iff count (some (x ∷ (y ∷ rest))) id a e = ground arith
inspect_iff none (some (x ∷ [])) id a e = ground arith
inspect_iff (some n) (some (x ∷ [])) id a e = (
  λ h.
      let taken : (a ≡ id)
          × (n ≡ 0)
          × (x.event_id ≡ some e)
          × (x.error_code ≡ none)
          × (x.error_message ≡ none)
          × (trim e ≢ []) =
        ground (arith, inspect_success_iff x id a e) in
      let (same, zero, named, no_code, no_message, full) = taken in
      (same, (ap some zero, (x, refl, named, no_code, no_message), full)),
  λ h. ground (arith, inspect_success_iff x id a e),
)

accepts_named :
    (entry : ResultEntry) (id audit_event_id : JsString)
    → inspect_success entry id ≢ accepted audit_event_id none
accepts_named entry id audit_event_id h = elim (Option-cases entry.event_id) [
  | inl unnamed ↦ ground arith
  | inr (event_id, named) ↦ ground arith
]

-- No publication is accepted without an event id.
inspect-named :
    (failed_entry_count : Option ℕ) (entries : Option (List ResultEntry))
    (id audit_event_id : JsString)
    → inspect_put_events_response
        (record { failed_entry_count = failed_entry_count; entries = entries })
        id
      ≢ accepted audit_event_id none
unfolding inspect_put_events_response
inspect-named count none id a h = ground arith
inspect-named count (some []) id a h = ground arith
inspect-named count (some (x ∷ (y ∷ rest))) id a h = ground arith
inspect-named none (some (x ∷ [])) id a h = ground arith
inspect-named (some n) (some (x ∷ [])) id a h = ground (arith, accepts_named x id a)

-- A publication counts as accepted, under the audit event's id and with the transport's event id as
-- far as it is told, exactly when that id is told, the response has no failure, one entry, no error
-- in it, and that very event id, which is not blank.
pub inspect_put_events_response_iff :
    (response : PutEventsResponse) (id audit_event_id : JsString) (transport : Option JsString)
    → (inspect_put_events_response response id ≡ accepted audit_event_id transport) ↔ (
        (audit_event_id ≡ id)
        × ((event_id : JsString) × (transport ≡ some event_id)
            × IsTaken response.failed_entry_count response.entries event_id))
inspect_put_events_response_iff response id a none = (
  λ h. absurd (inspect-named response.failed_entry_count response.entries id a h),
  λ (same, (event_id, named, taken)). absurd (ground arith),
)
inspect_put_events_response_iff response id a (some e) = (
  λ h.
      let (same, taken) = (inspect_iff response.failed_entry_count response.entries id a e).0 h in
      (same, (e, refl, taken)),
  λ (same, (event_id, named, taken)).
      (inspect_iff response.failed_entry_count response.entries id a e).1 (
        same,
        subst (IsTaken response.failed_entry_count response.entries)
            (sym (some-injective e event_id named)) taken,
      ),
)
