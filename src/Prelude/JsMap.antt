-- ===== src/Prelude/JsMap.antt =====
-- JavaScript's `Map` with string keys, in insertion order: writing a key that is there keeps its
-- place.
use mathlib.Core.Path.{◌≡◌, refl}
use mathlib.Core.Logic.{◌≢◌, inl, inr}
use mathlib.Core.Bool.{Bool, true, false}
use mathlib.Core.Option.{Option, none, some}
use mathlib.Core.List.{List, [], ◌∷◌}
use native.Mathlib.Omega.{arith}
use movie_reservation_servic.Prelude.Tests.{if◌then◌else◌, Bool-cases}
use movie_reservation_servic.Prelude.Lists.{Has}
use movie_reservation_servic.Prelude.Text.{JsString, ◌===◌, ===_iff, ===_refl}

abbrev pub JsMap {ℓ} : Type ℓ → Type ℓ
JsMap V = List (JsString × V)

module _ {ℓ} {V : Type ℓ} where
  unfoldable pub get : JsMap V → JsString → Option V
  get [] k = none
  get ((j, v) ∷ m) k = if j === k then some v else get m k

  unfoldable pub set : JsMap V → JsString → V → JsMap V
  set [] k v = (k, v) ∷ []
  set ((j, w) ∷ m) k v = if j === k then (j, v) ∷ m else (j, w) ∷ set m k v

  unfoldable pub has : JsMap V → JsString → Bool
  unfolding get
  has m k = elim (get m k) [ none ↦ false | some _ ↦ true ]

  unfoldable pub values : JsMap V → List V
  values [] = []
  values ((_, v) ∷ m) = v ∷ values m

  pub get-set :
      (m : JsMap V) (k : JsString) (v : V) (j : JsString)
      → get (set m k v) j ≡ (if k === j then some v else get m j)
  unfolding get set
  get-set [] k v j = refl
  get-set ((i, w) ∷ m) k v j =
      ground (arith, ===_iff k j, ===_iff i k, ===_iff i j, get-set m k v j)

  pub get-set_self : (m : JsMap V) (k : JsString) (v : V) → get (set m k v) k ≡ some v
  get-set_self m k v = rw (get-set m k v k, ===_refl k)

  pub get-set_ne :
      (m : JsMap V) (k : JsString) (v : V) (j : JsString) → k ≢ j → get (set m k v) j ≡ get m j
  get-set_ne m k v j h = rw (get-set m k v j) (ground (arith, ===_iff k j))

  pub set-set : (m : JsMap V) (k : JsString) (v w : V) → set (set m k v) k w ≡ set m k w
  unfolding set
  set-set [] k v w = ground (arith, ===_refl k)
  set-set ((i, u) ∷ m) k v w = ground (arith, set-set m k v w)

  -- A `Map` holds a key once.
  abbrev pub IsMap : JsMap V → Type ℓ
  IsMap [] = Unit
  IsMap ((k, v) ∷ m) = (get m k ≡ none) × IsMap m

  pub set-IsMap : (m : JsMap V) (k : JsString) (v : V) → IsMap m → IsMap (set m k v)
  unfolding set get
  set-IsMap [] k v h = (refl, tt)
  set-IsMap ((i, u) ∷ m) k v h =
      ground (arith, set-IsMap m k v h.1, get-set m k v i, ===_iff i k, ===_iff k i)

module _ {V : Type 0} where
  -- What a key is mapped to is among the values.
  pub get-Has : (m : JsMap V) (k : JsString) (v : V) → get m k ≡ some v → Has v (values m)
  unfolding get values
  get-Has [] k v h = cc
  get-Has ((i, u) ∷ m) k v h = elim (Bool-cases (i === k)) [
    | inl same ↦ inl (ground arith)
    | inr other ↦ inr (get-Has m k v (ground arith))
  ]

  -- A value stands at some key.
  pub get_of_Has :
      (m : JsMap V) (v : V) → IsMap m → Has v (values m) → (k : JsString) × (get m k ≡ some v)
  unfolding get values
  get_of_Has [] v h p = elim p [ ]
  get_of_Has ((i, u) ∷ m) v h p = elim p [
    | inl here ↦ (i, ground (arith, ===_refl i))
    | inr later ↦ let (k, at) = get_of_Has m v h.1 later in (k, ground (arith, ===_iff i k))
  ]
