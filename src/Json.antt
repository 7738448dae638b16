-- ===== src/Json.antt =====
-- Untrusted values as JavaScript sees parsed JSON. The fields of an object stand in the order in
-- which JavaScript enumerates them, each key once.
use movie_reservation_servic.Prelude.{
  Bool, Option, none, some, List, [], ◌∷◌, JsString, ◌===◌, if◌then◌else◌,
}

mutual
  pub data Json : Type 0 where
    undefined null : Json
    boolean : Bool → Json
    number : (literal : JsString) → Json
    string : JsString → Json
    array : Elements → Json
    object : Fields → Json

  pub data Elements : Type 0 where
    no_elements : Elements
    element : Json → Elements → Elements

  pub data Fields : Type 0 where
    no_fields : Fields
    field : JsString → Json → Fields → Fields

-- `object[key]`
unfoldable pub lookup : Fields → JsString → Json
lookup no_fields key = undefined
lookup (field k v rest) key = if k === key then v else lookup rest key

-- `typeof value === 'string' ? value : undefined`
abbrev pub as_string : Json → Option JsString
as_string (string s) = some s
as_string v = none

-- `value[key]` on a value that `isRecord` accepts: an array has no such key.
abbrev pub property : Json → JsString → Json
property (object fields) key = lookup fields key
property v key = undefined

-- The strings among the elements, `filter((x) => typeof x === 'string')`.
unfoldable pub strings_of : Elements → List JsString
strings_of no_elements = []
strings_of (element (string s) rest) = s ∷ strings_of rest
strings_of (element v rest) = strings_of rest
