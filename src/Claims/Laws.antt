-- ===== src/Claims/Laws.antt =====
-- The users that src/infrastructure/authentication/movie-reservation-claims-parser.ts parses.
use movie_reservation_servic.Prelude.{
  ◌≡◌, ◌≢◌, ◌↔◌, refl, ◌⊎◌, inl, inr, subst, true, Option, none, some, List, [], ◌∷◌, ◌++◌,
  JsString, text, ===_iff, Has, ok, err, Result-cases, Option-cases, Bool-cases, length, ◌==◌,
  arith,
}
use movie_reservation_servic.Errors.{Error}
use movie_reservation_servic.Domain.Ids.{trim, create_uuid_id}
use movie_reservation_servic.Domain.Ids.Laws.{IsCanonical, create_uuid_id-IsCanonical}
use movie_reservation_servic.Access.{UserRole, customer, tenant_admin, system, AuthenticatedUser}
use movie_reservation_servic.Json.{Fields, lookup, as_string}
use movie_reservation_servic.Claims.{
  invalid_claims, create_user_id, read_required_string_claim,
  create_required_movie_provider_id_claim, read_optional_movie_provider_code_claim, role_name,
  matches_code, known_role, known_roles, parse_roles, read_realm_roles, read_resource_roles,
  parse_movie_reservation_claims, user_of, username_of,
}

Has-append : {A : Type 0} (xs ys : List A) (a : A) → Has a (xs ++ ys) ↔ (Has a xs ⊎ Has a ys)
Has-append [] ys a = ground arith
Has-append (x ∷ xs) ys a = ground (arith, Has-append xs ys a)

known_role_iff : (name : JsString) (r : UserRole) → Has r (known_role name) ↔ (name ≡ role_name r)
unfolding known_role
known_role_iff name customer = ground (
  arith,
  ===_iff name (role_name customer),
  ===_iff name (role_name tenant_admin),
  ===_iff name (role_name system),
)
known_role_iff name tenant_admin = ground (
  arith,
  ===_iff name (role_name customer),
  ===_iff name (role_name tenant_admin),
  ===_iff name (role_name system),
)
known_role_iff name system = ground (
  arith,
  ===_iff name (role_name customer),
  ===_iff name (role_name tenant_admin),
  ===_iff name (role_name system),
)

known_roles_iff :
    (names : List JsString) (r : UserRole) → Has r (known_roles names) ↔ Has (role_name r) names
unfolding known_roles
known_roles_iff [] r = ground arith
known_roles_iff (n ∷ names) r = ground (
  arith,
  Has-append (known_role n) (known_roles names) r,
  known_role_iff n r,
  known_roles_iff names r,
)

-- The parsed user has a role exactly when the realm's roles or a client's roles name it.
pub parse_roles_iff :
    (claims : Fields) (r : UserRole)
    → Has r (parse_roles claims) ↔ (
        Has (role_name r) (read_realm_roles claims)
        ⊎ Has (role_name r) (read_resource_roles claims))
unfolding parse_roles
parse_roles_iff claims r = ground (
  arith,
  Has-append (read_realm_roles claims) (read_resource_roles claims) (role_name r),
  known_roles_iff (read_realm_roles claims ++ read_resource_roles claims) r,
)

required-lem :
    (claims : Fields) (name : JsString)
    → (read_required_string_claim claims name ≡ err invalid_claims)
      ⊎ ((value : JsString) × (read_required_string_claim claims name ≡ ok value)
          × (create_user_id value ≡ ok (trim value))
          × (as_string (lookup claims name) ≡ some value)
          × (trim value ≢ []))
unfolding read_required_string_claim create_user_id
required-lem claims name = elim (Option-cases (as_string (lookup claims name))) [
  | inl missing ↦ inl (ground arith)
  | inr (value, e) ↦ elim (Bool-cases (length (trim value) == 0)) [
    | inl blank ↦ inl (ground arith)
    | inr full ↦ inr (value, ground arith, ground arith, e, λ z. ground arith)
  ]
]

code-lem :
    (claims : Fields) (name : JsString)
    → (read_optional_movie_provider_code_claim claims name ≡ err invalid_claims)
      ⊎ ((code : Option JsString) × (read_optional_movie_provider_code_claim claims name ≡ ok code))
unfolding read_optional_movie_provider_code_claim
code-lem claims name = elim (Option-cases (as_string (lookup claims name))) [
  | inl missing ↦ inr (none, ground arith)
  | inr (value, e) ↦ elim (Bool-cases (matches_code true (trim value))) [
    | inl good ↦ inr (some (trim value), ground arith)
    | inr bad ↦ inl (ground arith)
  ]
]

provider-lem :
    (value : JsString)
    → (create_required_movie_provider_id_claim value ≡ err invalid_claims)
      ⊎ ((id : JsString) × (create_required_movie_provider_id_claim value ≡ ok id) × IsCanonical id)
unfolding create_required_movie_provider_id_claim
provider-lem value = elim (Result-cases (create_uuid_id value)) [
  | inl (id, e) ↦ inr (id, ground arith, create_uuid_id-IsCanonical value id e)
  | inr (x, e) ↦ inl (ground arith)
]

-- An identity that the service can rely on.
pub record IsIdentity (claims : Fields) (user : AuthenticatedUser) : Type 0 where
  pub user_id :
      (value : JsString) × (as_string (lookup claims (text "sub")) ≡ some value)
      × (user.user_id ≡ trim value)
      × (trim value ≢ [])
  pub movie_provider_id : IsCanonical user.movie_provider_id
  pub roles :
      (r : UserRole)
      → Has r user.roles ↔ (
          Has (role_name r) (read_realm_roles claims)
          ⊎ Has (role_name r) (read_resource_roles claims))

parse-cases :
    (claims : Fields)
    → (parse_movie_reservation_claims claims ≡ err invalid_claims)
      ⊎ ((user : AuthenticatedUser) × (parse_movie_reservation_claims claims ≡ ok user)
          × IsIdentity claims user)
unfolding parse_movie_reservation_claims
parse-cases claims = elim (required-lem claims (text "sub")) [
  | inl bad ↦ inl (ground arith)
  | inr (sub, e1, e4, given, full) ↦ elim (required-lem claims (text "movie_provider_id")) [
    | inl bad ↦ inl (ground arith)
    | inr (provider, e2, u, v, x) ↦ elim (code-lem claims (text "movie_provider_code")) [
      | inl bad ↦ inl (ground arith)
      | inr (code, e3) ↦ elim (provider-lem provider) [
        | inl bad ↦ inl (ground arith)
        | inr (id, e5, canonical) ↦ inr (
          user_of claims (username_of claims sub) code (trim sub) id,
          ground arith,
          record {
            user_id = (sub, given, refl, full);
            movie_provider_id = canonical;
            roles = parse_roles_iff claims;
          },
        )
      ]
    ]
  ]
]

-- Parsed claims have a string as their subject, which white space alone does not make up, and the
-- user id is that string without the white space around it; the provider id is canonical; and the
-- roles are exactly the known roles that the token names.
pub parse_movie_reservation_claims-IsIdentity :
    (claims : Fields) (user : AuthenticatedUser)
    → parse_movie_reservation_claims claims ≡ ok user
    → IsIdentity claims user
parse_movie_reservation_claims-IsIdentity claims user h = elim (parse-cases claims) [
  | inl bad ↦ absurd (ground arith)
  | inr (found, e, i) ↦ subst (IsIdentity claims) (ground arith) i
]

-- The parser throws no error but the authentication error with the message of invalid claims.
pub parse_movie_reservation_claims-err :
    (claims : Fields) (e : Error)
    → parse_movie_reservation_claims claims ≡ err e
    → e ≡ invalid_claims
parse_movie_reservation_claims-err claims e h = elim (parse-cases claims) [
  | inl bad ↦ ground arith
  | inr (found, good, i) ↦ absurd (ground arith)
]
