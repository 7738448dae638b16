-- ===== src/Claims.antt =====
-- src/infrastructure/authentication/movie-reservation-claims-parser.ts, jwt-authentication.manager.ts
-- and src/domain/authentication/user-id.ts. The claims are the fields of the token's payload.
pub mod Laws
use movie_reservation_servic.Prelude.{
  ℕ, Bool, true, false, not, ◌&&◌, ◌||◌, Option, none, some, List, [], ◌∷◌, ◌++◌, filter, JsString,
  text, ◌===◌, Result, ok, err, length, leb, ◌==◌, if◌then◌else◌,
}
use movie_reservation_servic.Errors.{Error, cannot_be_empty, authentication_error}
use movie_reservation_servic.Domain.Ids.{trim, create_uuid_id}
use movie_reservation_servic.Access.{UserRole, customer, tenant_admin, system, AuthenticatedUser}
use movie_reservation_servic.Json.{
  Json, string, array, object, Elements, no_elements, element, Fields, no_fields, field, lookup,
  as_string, property, strings_of,
}

abbrev pub invalid_claims : Error
invalid_claims = authentication_error (text "Invalid token claims")

-- `createUserId`
unfoldable pub create_user_id : JsString → Result JsString
create_user_id value = if length (trim value) == 0 then err cannot_be_empty else ok (trim value)

-- `readOptionalStringClaim`
abbrev pub read_optional_string_claim : Fields → JsString → Option JsString
read_optional_string_claim claims name = as_string (lookup claims name)

abbrev string_claim : Option JsString → Result JsString
string_claim none = err invalid_claims
string_claim (some value) = if length (trim value) == 0 then err invalid_claims else ok value

-- `readRequiredStringClaim`
unfoldable pub read_required_string_claim : Fields → JsString → Result JsString
read_required_string_claim claims name = string_claim (as_string (lookup claims name))

-- `createRequiredMovieProviderIdClaim`
unfoldable pub create_required_movie_provider_id_claim : JsString → Result JsString
create_required_movie_provider_id_claim value = elim (create_uuid_id value) [
  | ok id ↦ ok id
  | err e ↦ err invalid_claims
]

abbrev in_code : ℕ → Bool
in_code c = (leb b'a' c && leb c b'z') || (leb b'0' c && leb c b'9')

-- `^[a-z0-9]+(?:-[a-z0-9]+)*$`, read from the left; `start` tells that a unit of a part must follow.
unfoldable pub matches_code : (start : Bool) → JsString → Bool
matches_code start [] = not start
matches_code start (c ∷ s) =
    let in_part = matches_code false s in
    let next_part = matches_code true s in
    if in_code c then in_part else if not start && c == b'-' then next_part else false

abbrev code_claim : Option JsString → Result (Option JsString)
code_claim none = ok none
code_claim (some value) =
    if not (matches_code true (trim value)) then err invalid_claims else ok (some (trim value))

-- `readOptionalMovieProviderCodeClaim`
unfoldable pub read_optional_movie_provider_code_claim :
    Fields → JsString → Result (Option JsString)
unfolding matches_code
read_optional_movie_provider_code_claim claims name = code_claim (as_string (lookup claims name))

abbrev put : ℕ → List JsString → List JsString
put c [] = (c ∷ []) ∷ []
put c (word ∷ words) = (c ∷ word) ∷ words

-- `s.split(' ')`
unfoldable pub split : JsString → List JsString
split [] = [] ∷ []
split (c ∷ s) = let rest = split s in if c == b' ' then [] ∷ rest else put c rest

abbrev pub is_word : JsString → Bool
is_word value = not (length value == 0)

abbrev scopes_of : Json → List JsString
scopes_of (string scope) = filter is_word (split scope)
scopes_of v = []

-- `parseScopes`
unfoldable pub parse_scopes : Fields → List JsString
unfolding split filter
parse_scopes claims = scopes_of (lookup claims (text "scope"))

-- `isRecord(v) && Array.isArray(v.roles)`, and the strings of `v.roles`.
abbrev role_strings : Json → List JsString
role_strings (array elements) = strings_of elements
role_strings v = []

-- `readRealmRoles`
unfoldable pub read_realm_roles : Fields → List JsString
unfolding strings_of
read_realm_roles claims =
    role_strings (property (lookup claims (text "realm_access")) (text "roles"))

element_roles : Elements → List JsString
unfolding strings_of lookup
element_roles no_elements = []
element_roles (element v rest) = role_strings (property v (text "roles")) ++ element_roles rest

field_roles : Fields → List JsString
unfolding strings_of lookup
field_roles no_fields = []
field_roles (field k v rest) = role_strings (property v (text "roles")) ++ field_roles rest

-- `Object.values(resourceAccess)`, which is defined on an array too.
abbrev resource_roles : Json → List JsString
resource_roles (array elements) = element_roles elements
resource_roles (object fields) = field_roles fields
resource_roles v = []

-- `readResourceRoles`
unfoldable pub read_resource_roles : Fields → List JsString
unfolding element_roles field_roles
read_resource_roles claims = resource_roles (lookup claims (text "resource_access"))

-- The values of the enumeration.
abbrev pub role_name : UserRole → JsString
role_name customer = text "CUSTOMER"
role_name tenant_admin = text "TENANT_ADMIN"
role_name system = text "SYSTEM"

-- `isUserRole(role) ? [role] : []`
unfoldable pub known_role : JsString → List UserRole
known_role role =
    if role === role_name customer
    then customer ∷ []
    else if role === role_name tenant_admin
    then tenant_admin ∷ []
    else if role === role_name system
    then system ∷ []
    else []

unfoldable pub known_roles : List JsString → List UserRole
unfolding known_role
known_roles [] = []
known_roles (r ∷ rs) = known_role r ++ known_roles rs

-- `parseRoles`
unfoldable pub parse_roles : Fields → List UserRole
unfolding known_roles read_realm_roles read_resource_roles
parse_roles claims = known_roles (read_realm_roles claims ++ read_resource_roles claims)

abbrev or_else : Option JsString → JsString → JsString
or_else none s = s
or_else (some t) s = t

abbrev then_by : {A B : Type 0} → Result A → (A → Result B) → Result B
then_by (ok a) f = f a
then_by (err e) f = err e

-- The username: `preferred_username`, else `name`, else the user id.
abbrev pub username_of : Fields → JsString → JsString
username_of claims user_id =
    or_else (read_optional_string_claim claims (text "preferred_username"))
      (or_else (read_optional_string_claim claims (text "name")) user_id)

abbrev pub user_of :
    Fields
    → (username : JsString) → (code : Option JsString) → (user_id provider_id : JsString)
    → AuthenticatedUser
user_of claims username code user_id provider_id = record {
  user_id = user_id;
  username = username;
  email = or_else (read_optional_string_claim claims (text "email")) [];
  roles = parse_roles claims;
  scopes = parse_scopes claims;
  movie_provider_id = provider_id;
  movie_provider_code = code;
}

-- `parseMovieReservationClaims`
unfoldable pub parse_movie_reservation_claims : Fields → Result AuthenticatedUser
parse_movie_reservation_claims claims =
    then_by (read_required_string_claim claims (text "sub")) λ sub.
      then_by (read_required_string_claim claims (text "movie_provider_id")) λ provider.
        then_by (read_optional_movie_provider_code_claim claims (text "movie_provider_code"))
          λ code. then_by (create_user_id sub) λ user_id.
            then_by (create_required_movie_provider_id_claim provider)
              λ provider_id. ok (user_of claims (username_of claims sub) code user_id provider_id)

-- `authenticateJwtToken`; `validate` is the token validation client.
unfoldable pub authenticate_jwt_token :
    (JsString → Result Fields) → Option JsString → Result AuthenticatedUser
unfolding parse_movie_reservation_claims
authenticate_jwt_token validate none = err (authentication_error (text "Missing token"))
authenticate_jwt_token validate (some token) =
    if length (trim token) == 0
    then err (authentication_error (text "Missing token"))
    else then_by (validate token) parse_movie_reservation_claims
