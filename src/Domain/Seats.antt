-- ===== src/Domain/Seats.antt =====
-- The seat checks that requests and reservations share: `new Set(seatIds).size`, and when it tells
-- that no seat is named twice.
use movie_reservation_servic.Prelude.{
  ◌+◌, ◌≤◌, ◌≡◌, ◌↔◌, true, false, List, [], ◌∷◌, ◌++◌, arith, JsString, ===_iff, includes, length,
  length-append, if◌then◌else◌, Bool-cases, inl, inr,
}

-- `new Set(xs)`, in insertion order.
set_from : List JsString → List JsString → List JsString
set_from seen [] = seen
set_from seen (x ∷ xs) = set_from (if includes seen x then seen else seen ++ x ∷ []) xs

unfoldable pub set_of : List JsString → List JsString
unfolding set_from includes
set_of xs = set_from [] xs

-- No id is listed twice.
abbrev pub IsDistinct : List JsString → Type 0
IsDistinct [] = Unit
IsDistinct (x ∷ xs) = (includes xs x ≡ false) × IsDistinct xs

-- No id of the second list is in the first.
abbrev IsFresh : List JsString → List JsString → Type 0
IsFresh seen [] = Unit
IsFresh seen (x ∷ xs) = (includes seen x ≡ false) × IsFresh seen xs

pub includes-append :
    (xs ys : List JsString) (a : JsString)
    → includes (xs ++ ys) a ≡ (if includes xs a then true else includes ys a)
unfolding includes
includes-append [] ys a = ground arith
includes-append (x ∷ xs) ys a = ground (arith, includes-append xs ys a)

IsFresh-snoc :
    (seen xs : List JsString) (x : JsString)
    → IsFresh (seen ++ x ∷ []) xs ↔ (IsFresh seen xs × (includes xs x ≡ false))
unfolding includes
IsFresh-snoc seen [] x = ground arith
IsFresh-snoc seen (y ∷ ys) x =
    ground
      (arith, IsFresh-snoc seen ys x, includes-append seen (x ∷ []) y, ===_iff x y, ===_iff y x)

length-set_from-le : (seen xs : List JsString) → length (set_from seen xs) ≤ length seen + length xs
unfolding set_from
length-set_from-le seen [] = omega arith
length-set_from-le seen (x ∷ xs) = elim (Bool-cases (includes seen x)) [
  | inl old ↦ rw old (omega (arith, length-set_from-le seen xs))
  | inr new ↦
      rw new (omega (arith, length-set_from-le (seen ++ x ∷ []) xs, length-append seen (x ∷ [])))
]

length-set_from_iff :
    (seen xs : List JsString)
    → (length (set_from seen xs) ≡ length seen + length xs) ↔ (IsFresh seen xs × IsDistinct xs)
unfolding set_from
length-set_from_iff seen [] = ground arith
length-set_from_iff seen (x ∷ xs) = elim (Bool-cases (includes seen x)) [
  | inl old ↦ rw old (ground (arith, length-set_from-le seen xs))
  | inr new ↦ rw new (
      ground (
        arith,
        length-set_from_iff (seen ++ x ∷ []) xs,
        length-append seen (x ∷ []),
        IsFresh-snoc seen xs x,
      ))
]

IsFresh-nil : (xs : List JsString) → IsFresh [] xs
unfolding includes
IsFresh-nil [] = tt
IsFresh-nil (x ∷ xs) = ground (arith, IsFresh-nil xs)

-- The size of the set is the length of the list exactly when no id is listed twice.
pub length-set_of_iff : (xs : List JsString) → (length (set_of xs) ≡ length xs) ↔ IsDistinct xs
unfolding set_of
length-set_of_iff xs = ground (arith, length-set_from_iff [] xs, IsFresh-nil xs)
