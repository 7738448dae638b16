-- ===== src/Prelude/Text.antt =====
-- A JavaScript string: its UTF-16 code units. `===` is strict equality.
use Prim.Native.Nat.{ℕ}
use Prim.Native.Char.{code}
use Prim.Native.String.{String}
use mathlib.Core.Path.{◌≡◌, refl}
use mathlib.Core.Logic.{◌↔◌}
use mathlib.Core.Bool.{Bool, true, false, ◌&&◌, ◌||◌}
use mathlib.Core.List.{List, [], ◌∷◌}
use mathlib.Core.Option.{Option, none, some}
use native.Mathlib.Omega.{arith}
use movie_reservation_servic.Prelude.Tests.{◌==◌}

abbrev pub JsString : Type 0
JsString = List ℕ

-- An ASCII literal.
abbrev pub text : String → JsString
text String.[] = []
text (String.◌∷◌ c s) = code c ∷ text s

infix 50 ◌===◌
unfoldable pub ◌===◌ : JsString → JsString → Bool
[] === [] = true
[] === (_ ∷ _) = false
(_ ∷ _) === [] = false
(a ∷ s) === (b ∷ t) = a == b && s === t

pub ===_iff : (s t : JsString) → ((s === t) ≡ true) ↔ (s ≡ t)
unfolding ◌===◌
===_iff [] [] = ground arith
===_iff [] (b ∷ t) = ground arith
===_iff (a ∷ s) [] = ground arith
===_iff (a ∷ s) (b ∷ t) = ground (arith, ===_iff s t)

pub ===_refl : (s : JsString) → (s === s) ≡ true
===_refl s = (===_iff s s).1 refl

-- `xs.includes(x)`, and `new Set(xs).has(x)`.
unfoldable pub includes : List JsString → JsString → Bool
includes [] x = false
includes (y ∷ ys) x = y === x || includes ys x

-- `value === text`, for a value that may be `undefined` or `null`
abbrev pub is_text : Option JsString → JsString → Bool
is_text none t = false
is_text (some s) t = s === t
