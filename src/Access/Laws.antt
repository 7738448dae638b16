-- ===== src/Access/Laws.antt =====
-- The reading policy of src/application/authorization/authorization.service.ts, as a predicate.
use movie_reservation_servic.Prelude.{
  ◌≡◌, ◌↔◌, ◌⊎◌, true, List, [], ◌∷◌, JsString, text, ===_iff, Has, includes, arith, ◌==◌,
}
use movie_reservation_servic.Domain.Request.{ReservationRequest}
use movie_reservation_servic.Domain.Reservation.{Reservation}
use movie_reservation_servic.Access.{
  UserRole, customer, tenant_admin, system, ActorContext, includes_role, role_code,
  can_read_reservation_request, can_read_reservation,
}

-- The actor may read what `owner` of the provider `provider_id` owns.
abbrev pub MayRead : ActorContext → (provider_id owner : JsString) → Type 0
MayRead actor provider_id owner =
    (actor.movie_provider_id ≡ provider_id)
    × (Has tenant_admin actor.roles
        ⊎ (Has (text "reservations:read:tenant") actor.scopes ⊎ (actor.user_id ≡ owner)))

same_role_iff : (a b : UserRole) → ((role_code a == role_code b) ≡ true) ↔ (a ≡ b)
same_role_iff customer customer = ground arith
same_role_iff customer tenant_admin = ground arith
same_role_iff customer system = ground arith
same_role_iff tenant_admin customer = ground arith
same_role_iff tenant_admin tenant_admin = ground arith
same_role_iff tenant_admin system = ground arith
same_role_iff system customer = ground arith
same_role_iff system tenant_admin = ground arith
same_role_iff system system = ground arith

includes_role_iff : (rs : List UserRole) (r : UserRole) → (includes_role rs r ≡ true) ↔ Has r rs
unfolding includes_role
includes_role_iff [] r = ground arith
includes_role_iff (q ∷ rs) r = ground (arith, same_role_iff q r, includes_role_iff rs r)

pub includes_iff : (xs : List JsString) (x : JsString) → (includes xs x ≡ true) ↔ Has x xs
unfolding includes
includes_iff [] x = ground arith
includes_iff (y ∷ xs) x = ground (arith, ===_iff y x, includes_iff xs x)

-- A request may be read exactly by an actor of its provider who is an administrator, has the
-- tenant's scope, or made the request.
pub can_read_reservation_request_iff :
    (actor : ActorContext) (r : ReservationRequest)
    → (can_read_reservation_request actor r ≡ true)
      ↔ MayRead actor r.movie_provider_id r.requested_by_user_id
unfolding can_read_reservation_request
can_read_reservation_request_iff actor r = ground (
  arith,
  ===_iff actor.movie_provider_id r.movie_provider_id,
  ===_iff actor.user_id r.requested_by_user_id,
  includes_role_iff actor.roles tenant_admin,
  includes_iff actor.scopes (text "reservations:read:tenant"),
)

-- A reservation may be read exactly by an actor of its provider who is an administrator, has the
-- tenant's scope, or holds the reservation.
pub can_read_reservation_iff :
    (actor : ActorContext) (r : Reservation)
    → (can_read_reservation actor r ≡ true)
      ↔ MayRead actor r.movie_provider_id r.reserved_by_user_id
unfolding can_read_reservation
can_read_reservation_iff actor r = ground (
  arith,
  ===_iff actor.movie_provider_id r.movie_provider_id,
  ===_iff actor.user_id r.reserved_by_user_id,
  includes_role_iff actor.roles tenant_admin,
  includes_iff actor.scopes (text "reservations:read:tenant"),
)
