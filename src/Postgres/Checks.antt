-- ===== src/Postgres/Checks.antt =====
-- `reservation_request_processing_attempts_shape_check` of
-- src/infrastructure/database/migrations/202605290001_create_movie_reservation_schema.ts, in the
-- three truth values of SQL.
use movie_reservation_servic.Prelude.{
  Bool, true, false, Option, none, some, JsString, text, ◌===◌, if◌then◌else◌,
}
use movie_reservation_servic.Postgres.Rows.{AttemptRow}

pub data Truth : Type 0 where
  is_true is_false is_unknown : Truth

abbrev of_bool : Bool → Truth
of_bool b = if b then is_true else is_false

-- `column = literal`, unknown on a null
abbrev equals : Option JsString → JsString → Truth
equals none literal = is_unknown
equals (some s) literal = of_bool (s === literal)

abbrev unless_false : Truth → Truth
unless_false is_true = is_unknown
unless_false is_false = is_false
unless_false is_unknown = is_unknown

-- `a and b`
abbrev both : Truth → Truth → Truth
both is_true b = b
both is_false b = is_false
both is_unknown b = unless_false b

abbrev unless_true : Truth → Truth
unless_true is_true = is_true
unless_true is_false = is_unknown
unless_true is_unknown = is_unknown

-- `a or b`
abbrev either : Truth → Truth → Truth
either is_true b = is_true
either is_false b = b
either is_unknown b = unless_true b

-- `column is null`
abbrev null : Option JsString → Truth
null none = is_true
null (some s) = is_false

-- `column is not null`
abbrev not_null : Option JsString → Truth
not_null none = is_false
not_null (some s) = is_true

-- A check refuses a row only when it is false.
abbrev passes : Truth → Bool
passes is_true = true
passes is_false = false
passes is_unknown = true

unfoldable pub has_shape : AttemptRow → Bool
has_shape row = passes (
    either
      (both (of_bool (row.outcome === text "confirmed")) (
        both (not_null row.reservation_id)
          (both (null row.reason) (null row.conflicting_reservation_id))))
      (either
        (both (of_bool (row.outcome === text "rejected")) (
          both (equals row.reason (text "seat-conflict"))
            (both (null row.reservation_id) (not_null row.conflicting_reservation_id))))
        (both (of_bool (row.outcome === text "failed")) (
          both
            (either (equals row.reason (text "unexpected-error"))
              (equals row.reason (text "lease-timeout")))
            (both (null row.reservation_id) (null row.conflicting_reservation_id))))))
