-- ===== src/Access.antt =====
-- Who may read what: src/application/authentication/actor-context.ts,
-- src/application/authorization/authorization.service.ts and the identity types of
-- src/domain/authentication.
pub mod Laws
use movie_reservation_servic.Prelude.{
  ℕ, Bool, true, false, not, ◌||◌, Option, List, [], ◌∷◌, JsString, text, ◌===◌, includes, ◌==◌,
  if◌then◌else◌,
}
use movie_reservation_servic.Domain.Request.{ReservationRequest}
use movie_reservation_servic.Domain.Reservation.{Reservation}

pub data UserRole : Type 0 where
  customer tenant_admin system : UserRole

pub record AuthenticatedUser : Type 0 where
  pub user_id : JsString
  pub username : JsString
  pub email : JsString
  pub roles : List UserRole
  pub scopes : List JsString
  pub movie_provider_id : JsString
  pub movie_provider_code : Option JsString

pub record ActorContext : Type 0 where
  pub user_id : JsString
  pub movie_provider_id : JsString
  pub roles : List UserRole
  pub scopes : List JsString

unfoldable pub create_actor_context : AuthenticatedUser → ActorContext
create_actor_context user = record {
  user_id = user.user_id;
  movie_provider_id = user.movie_provider_id;
  roles = user.roles;
  scopes = user.scopes;
}

abbrev pub role_code : UserRole → ℕ
role_code customer = 0
role_code tenant_admin = 1
role_code system = 2

-- `roles.includes(role)`
unfoldable pub includes_role : List UserRole → UserRole → Bool
includes_role [] role = false
includes_role (r ∷ rs) role = role_code r == role_code role || includes_role rs role

-- `canReadReservationRequest`
unfoldable pub can_read_reservation_request : ActorContext → ReservationRequest → Bool
unfolding includes_role
can_read_reservation_request actor r =
    if not (actor.movie_provider_id === r.movie_provider_id)
    then false
    else if includes_role actor.roles tenant_admin
    then true
    else if includes actor.scopes (text "reservations:read:tenant")
    then true
    else actor.user_id === r.requested_by_user_id

-- `canReadReservation`
unfoldable pub can_read_reservation : ActorContext → Reservation → Bool
unfolding includes_role
can_read_reservation actor r =
    if not (actor.movie_provider_id === r.movie_provider_id)
    then false
    else if includes_role actor.roles tenant_admin
    then true
    else if includes actor.scopes (text "reservations:read:tenant")
    then true
    else actor.user_id === r.reserved_by_user_id
