-- ===== src/Domain/Ids/Laws.antt =====
-- The identifiers of src/domain/movie-reservations/id-utils.ts: their canonical form.
use movie_reservation_servic.Prelude.{
  ℕ, suc, ◌≡◌, refl, sym, ap, ◌∙◌, subst, true, false, List, [], ◌∷◌, arith, JsString, ok, length,
  All, Bool-cases, inl, inr,
}
use movie_reservation_servic.Domain.Ids.{
  is_white_space, trim_start, trim_end, trim, CharClass, hex, in_class, uuid_pattern, matches,
  to_lower, to_lower_case, create_uuid_id,
}

in_class-to_lower : (k : CharClass) (c : ℕ) → in_class k (to_lower c) ≡ in_class k c
unfolding in_class to_lower
in_class-to_lower hex c = ground arith
in_class-to_lower k c = ground arith

matches-to_lower_case :
    (ks : List CharClass) (s : JsString) → matches ks (to_lower_case s) ≡ matches ks s
unfolding matches to_lower_case
matches-to_lower_case [] [] = refl
matches-to_lower_case [] (c ∷ s) = refl
matches-to_lower_case (k ∷ ks) [] = refl
matches-to_lower_case (k ∷ ks) (c ∷ s) = rw (in_class-to_lower k c, matches-to_lower_case ks s)

to_lower-to_lower : (c : ℕ) → to_lower (to_lower c) ≡ to_lower c
unfolding to_lower
to_lower-to_lower c = ground arith

to_lower_case_idempotent : (s : JsString) → to_lower_case (to_lower_case s) ≡ to_lower_case s
unfolding to_lower_case
to_lower_case_idempotent [] = refl
to_lower_case_idempotent (c ∷ s) = rw (to_lower-to_lower c, to_lower_case_idempotent s)

-- No unit is white space.
abbrev IsSolid : JsString → Type 0
IsSolid s = All (λ c. is_white_space c ≡ false) s

in_class-IsSolid : (k : CharClass) (c : ℕ) → in_class k c ≡ true → is_white_space c ≡ false
unfolding in_class is_white_space
in_class-IsSolid hex c h = ground arith
in_class-IsSolid k c h = ground arith

matches-IsSolid : (ks : List CharClass) (s : JsString) → matches ks s ≡ true → IsSolid s
unfolding matches
matches-IsSolid [] [] h = tt
matches-IsSolid [] (c ∷ s) h = cc
matches-IsSolid (k ∷ ks) [] h = cc
matches-IsSolid (k ∷ ks) (c ∷ s) h =
    (in_class-IsSolid k c (ground arith), matches-IsSolid ks s (ground arith))

trim_start-IsSolid : (s : JsString) → IsSolid s → trim_start s ≡ s
unfolding trim_start
trim_start-IsSolid [] h = refl
trim_start-IsSolid (c ∷ s) h = rw h.0

trim_end-IsSolid : (s : JsString) → IsSolid s → trim_end s ≡ s
unfolding trim_end
trim_end-IsSolid [] h = refl
trim_end-IsSolid (c ∷ []) h = rw h.0
trim_end-IsSolid (c ∷ d ∷ s) h = rw (trim_end-IsSolid (d ∷ s) h.1)

trim-IsSolid : (s : JsString) → IsSolid s → trim s ≡ s
unfolding trim
trim-IsSolid s h = rw (trim_start-IsSolid s h) (trim_end-IsSolid s h)

length-matches : (ks : List CharClass) (s : JsString) → matches ks s ≡ true → length s ≡ length ks
unfolding matches
length-matches [] [] h = refl
length-matches [] (c ∷ s) h = cc
length-matches (k ∷ ks) [] h = cc
length-matches (k ∷ ks) (c ∷ s) h = ap suc (length-matches ks s (ground arith))

-- A UUID in the form the database keeps: 36 units of the right classes, in lower case, with no
-- white space.
pub record IsCanonical (s : JsString) : Type 0 where
  pub in_form : matches uuid_pattern s ≡ true
  pub lower : to_lower_case s ≡ s
  pub trimmed : trim s ≡ s
  pub long : length s ≡ 36

matches-IsCanonical : (s : JsString) → matches uuid_pattern s ≡ true → IsCanonical (to_lower_case s)
matches-IsCanonical s h =
    let h' = matches-to_lower_case uuid_pattern s ∙ h in
    record {
      in_form = h';
      lower = to_lower_case_idempotent s;
      trimmed = trim-IsSolid (to_lower_case s) (matches-IsSolid uuid_pattern _ h');
      long = length-matches uuid_pattern (to_lower_case s) h';
    }

-- An accepted value is normalised to a canonical UUID.
pub create_uuid_id-IsCanonical :
    (value id : JsString) → create_uuid_id value ≡ ok id → IsCanonical id
unfolding create_uuid_id
create_uuid_id-IsCanonical value id h = elim (Bool-cases (matches uuid_pattern (trim value))) [
  | inl m ↦ subst IsCanonical (ground arith) (matches-IsCanonical (trim value) m)
  | inr m ↦ absurd (ground arith)
]

-- A canonical UUID is accepted as it is.
pub create_uuid_id_of_IsCanonical : (id : JsString) → IsCanonical id → create_uuid_id id ≡ ok id
create_uuid_id_of_IsCanonical id c =
    unfold create_uuid_id in rw (c.trimmed, c.in_form) (ap ok c.lower)

-- Creating an id from an accepted id gives the same id.
pub create_uuid_id_idempotent :
    (value id : JsString) → create_uuid_id value ≡ ok id → create_uuid_id id ≡ ok id
create_uuid_id_idempotent value id h =
    create_uuid_id_of_IsCanonical id (create_uuid_id-IsCanonical value id h)

-- Two values that differ in letter case and surrounding white space alone give one id, or both are
-- refused.
pub create_uuid_id_case_insensitive :
    (v w : JsString)
    → to_lower_case (trim v) ≡ to_lower_case (trim w)
    → create_uuid_id v ≡ create_uuid_id w
create_uuid_id_case_insensitive v w h =
    let same : matches uuid_pattern (trim v) ≡ matches uuid_pattern (trim w) =
      sym (matches-to_lower_case uuid_pattern (trim v))
      ∙ ap (matches uuid_pattern) h
      ∙ matches-to_lower_case uuid_pattern (trim w) in
    unfold create_uuid_id in rw (same, h)
