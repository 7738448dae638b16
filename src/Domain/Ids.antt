-- ===== src/Domain/Ids.antt =====
-- src/domain/movie-reservations/id-utils.ts: the guards behind every branded id, over code units.
pub mod Laws
use movie_reservation_servic.Prelude.{
  ℕ, zero, suc, ◌+◌, Bool, true, false, ◌&&◌, ◌||◌, List, [], ◌∷◌, ◌++◌, JsString, Result, ok, err,
  length, leb, ◌==◌, if◌then◌else◌,
}
use movie_reservation_servic.Errors.{cannot_be_empty, must_be_uuid}

-- WhiteSpace and LineTerminator of ECMAScript, which `trim` removes.
unfoldable pub is_white_space : ℕ → Bool
is_white_space c =
    (leb 9 c && leb c 13)
    || c == 32
    || c == 0xa0
    || c == 0x1680
    || (leb 0x2000 c && leb c 0x200a)
    || c == 0x2028
    || c == 0x2029
    || c == 0x202f
    || c == 0x205f
    || c == 0x3000
    || c == 0xfeff

unfoldable pub trim_start : JsString → JsString
unfolding is_white_space
trim_start [] = []
trim_start (c ∷ s) = if is_white_space c then trim_start s else c ∷ s

-- A unit before the trimmed rest stays unless it is white space and nothing is left behind it.
abbrev keep_before : ℕ → JsString → JsString
keep_before c [] = if is_white_space c then [] else c ∷ []
keep_before c (d ∷ s) = c ∷ d ∷ s

unfoldable pub trim_end : JsString → JsString
unfolding is_white_space
trim_end [] = []
trim_end (c ∷ s) = keep_before c (trim_end s)

-- `value.trim()`
unfoldable pub trim : JsString → JsString
unfolding trim_start trim_end
trim s = trim_end (trim_start s)

unfoldable pub create_non_empty_id : JsString → Result JsString
unfolding trim
create_non_empty_id value =
    let trimmed_value = trim value in
    if length trimmed_value == 0 then err cannot_be_empty else ok trimmed_value

-- The classes of `uuidPattern`, with its `i` flag: `[0-9a-f]`, `-`, `[1-8]` and `[89ab]`.
pub data CharClass : Type 0 where
  hex dash version variant : CharClass

unfoldable pub in_class : CharClass → ℕ → Bool
in_class hex c =
    (leb b'0' c && leb c b'9') || (leb b'a' c && leb c b'f') || (leb b'A' c && leb c b'F')
in_class dash c = c == b'-'
in_class version c = leb b'1' c && leb c b'8'
in_class variant c = c == b'8' || c == b'9' || c == b'a' || c == b'b' || c == b'A' || c == b'B'

abbrev repeat : ℕ → CharClass → List CharClass → List CharClass
repeat zero k rest = rest
repeat (suc n) k rest = k ∷ repeat n k rest

-- `^[0-9a-f]{8}-[0-9a-f]{4}-[1-8][0-9a-f]{3}-[89ab][0-9a-f]{3}-[0-9a-f]{12}$`
abbrev pub uuid_pattern : List CharClass
uuid_pattern = repeat 8 hex (
    dash
    ∷ repeat 4 hex
        (dash ∷ version ∷ repeat 3 hex (dash ∷ variant ∷ repeat 3 hex (dash ∷ repeat 12 hex []))))

unfoldable pub matches : List CharClass → JsString → Bool
unfolding in_class
matches [] [] = true
matches [] (_ ∷ _) = false
matches (_ ∷ _) [] = false
matches (k ∷ ks) (c ∷ s) = in_class k c && matches ks s

-- `toLowerCase` on an ASCII unit; it is called only on text that `uuidPattern` has accepted.
unfoldable pub to_lower : ℕ → ℕ
to_lower c = if leb b'A' c && leb c b'Z' then c + 32 else c

unfoldable pub to_lower_case : JsString → JsString
unfolding to_lower
to_lower_case [] = []
to_lower_case (c ∷ s) = to_lower c ∷ to_lower_case s

unfoldable pub create_uuid_id : JsString → Result JsString
unfolding trim matches to_lower_case
create_uuid_id value =
    let trimmed_value = trim value in
    if matches uuid_pattern trimmed_value
    then ok (to_lower_case trimmed_value)
    else err must_be_uuid
