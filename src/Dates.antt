-- ===== src/Dates.antt =====
-- `Date` as the code uses it, on times from the epoch on: a parameter, since it is JavaScript's own.
use movie_reservation_servic.Prelude.{
  ℕ, ◌+◌, ◌≡◌, Option, none, some, Bool, false, JsString, Result, ok, err, leb,
}
use movie_reservation_servic.Errors.{range_error}

pub record Dates : Type 0 where
  -- `new Date(s).getTime()`, `none` for `NaN`
  pub get_time : JsString → Option ℕ
  -- `new Date(n).toISOString()`, `none` for a `RangeError`
  pub to_iso_string : ℕ → Option JsString
  pub get_time-to_iso_string :
      (n : ℕ) (s : JsString) → to_iso_string n ≡ some s → get_time s ≡ some n

abbrev pub iso_or_throw : Option JsString → Result JsString
iso_or_throw none = err range_error
iso_or_throw (some s) = ok s

abbrev plus : Option ℕ → ℕ → (ℕ → Option JsString) → Option JsString
plus none n f = none
plus (some t) n f = f (t + n)

-- `addMilliseconds`, of the processor and of the worker alike
unfoldable pub add_milliseconds : Dates → JsString → ℕ → Result JsString
add_milliseconds d iso_string milliseconds =
    iso_or_throw (plus (d.get_time iso_string) milliseconds d.to_iso_string)

-- `a <= b` on numbers that may be `NaN`
abbrev pub le_time : Option ℕ → Option ℕ → Bool
le_time none b = false
le_time (some a) none = false
le_time (some a) (some b) = leb a b

-- `new Date(a).getTime() <= new Date(b).getTime()`
unfoldable pub not_after : Dates → JsString → JsString → Bool
not_after d a b = le_time (d.get_time a) (d.get_time b)
