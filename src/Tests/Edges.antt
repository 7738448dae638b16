-- ===== src/Tests/Edges.antt =====
-- The service, the login, the claims, the audit response and the configuration at concrete inputs.
use movie_reservation_servic.Prelude.{
  ◌≡◌, ◌≢◌, ◌↔◌, ◌===◌, refl, true, false, Bool, none, some, [], ◌∷◌, JsString, text, ok, All,
  includes, arith, filter,
}
use movie_reservation_servic.Prelude.JsMap.{get, values, set, has}
use movie_reservation_servic.Domain.Catalog.{Screening, Seat}
use movie_reservation_servic.Domain.Ids.{create_uuid_id, trim}
use movie_reservation_servic.Domain.Request.{create_reservation_request, create_sequence}
use movie_reservation_servic.Access.{ActorContext, UserRole, customer, AuthenticatedUser}
use movie_reservation_servic.Access.Laws.{MayRead}
use movie_reservation_servic.Memory.Store.{Store, empty, save_request}
use movie_reservation_servic.Memory.Settle.{find_conflict}
use movie_reservation_servic.Memory.Reads.{
  ScreeningAvailability, SeatAvailability, read_availability, find_screening_for_provider,
  find_seats_by_ids_for_screening,
}
use movie_reservation_servic.Service.{
  RequestReservationInput, ServicePorts, request_reservation, get_reservation_request,
  get_reservation, list_movies, list_screenings, list_seats_for_screening,
  list_seats_for_screenings,
}
use movie_reservation_servic.Service.Submit.{IsSubmitted, request_reservation-IsSubmitted}
use movie_reservation_servic.Service.Laws.{
  get_reservation_request_iff, get_reservation_iff, catalog-isolated,
  read_availability-find_conflict,
}
use movie_reservation_servic.Json.{
  Json, string, object, array, element, no_elements, Fields, field, no_fields, lookup,
}
use movie_reservation_servic.Claims.{
  parse_movie_reservation_claims, create_user_id, read_required_string_claim,
  read_optional_movie_provider_code_claim, create_required_movie_provider_id_claim, parse_roles,
  parse_scopes,
}
use movie_reservation_servic.Claims.Laws.{IsIdentity, parse_movie_reservation_claims-IsIdentity}
use movie_reservation_servic.Login
use movie_reservation_servic.Login.{
  authenticate, authenticate_iff, IsLogin, LoginResult, Recorded, Outcome,
}
use movie_reservation_servic.Audit.Response.{
  PutEventsResponse, PublishResult, inspect_put_events_response, IsTaken,
  inspect_put_events_response_iff,
}
use movie_reservation_servic.Config
use movie_reservation_servic.Config.{
  Env, parse_config, thrown, auth_mode, persistence_mode, NodeEnv, CompositionProfile, WorkerMode,
  FailureMode, AuditPublisher,
}
use movie_reservation_servic.Config.Laws.{IsSound, parse_config-IsSound, parse_config-not-thrown}
use movie_reservation_servic.Tests.Fixtures.{request_for, reservation_of}

abbrev ann : ActorContext
ann = record {
  user_id = text "ann";
  movie_provider_id = text "lux";
  roles = customer ∷ [];
  scopes = [];
}

abbrev evening : Screening
evening = record {
  id = text "evening";
  movie_provider_id = text "lux";
  movie_id = text "m";
  auditorium_id = text "hall";
  starts_at = 1 ∷ [];
  ends_at = 2 ∷ [];
}

abbrev seat : Seat
seat = record {
  id = text "a1";
  movie_provider_id = text "lux";
  auditorium_id = text "hall";
  row = text "a";
  number = 1;
}

abbrev house : Store
house = record empty { screenings = (text "evening", evening) ∷ []; seats = (text "a1", seat) ∷ [] }

abbrev service_ports : ServicePorts
service_ports = record {
  generate_reservation_request_id = text "r1";
  current_context = none;
  record_created = λ id. ok tt;
}

abbrev wish : RequestReservationInput
wish = record { screening_id = text "evening"; seat_ids = text "a1" ∷ [] }

request_reservation-IsSubmitted_example :
    IsSubmitted service_ports ann wish house
      (request_for (text "r1"))
      (request_reservation service_ports ann wish house).1
unfolding request_reservation find_screening_for_provider find_seats_by_ids_for_screening
    create_reservation_request save_request has create_sequence get set values ◌===◌ filter includes
request_reservation-IsSubmitted_example =
    request_reservation-IsSubmitted service_ports ann wish house (request_for (text "r1"))
      (omega arith) (omega arith) refl

abbrev sold : Store
sold = record house {
  requests = (text "r1", request_for (text "r1")) ∷ [];
  reservations = (text "b1", reservation_of (text "b1") (text "r1")) ∷ [];
}

get_reservation_request_iff_example :
    (get_reservation_request ann (text "r1") sold ≡ some (request_for (text "r1"))) ↔ (
      (get sold.requests (text "r1") ≡ some (request_for (text "r1")))
      × MayRead ann (text "lux") (text "ann"))
get_reservation_request_iff_example =
    get_reservation_request_iff ann sold (text "r1") (request_for (text "r1"))

get_reservation_iff_example :
    (get_reservation ann (text "b1") sold ≡ some (reservation_of (text "b1") (text "r1"))) ↔ (
      (get sold.reservations (text "b1") ≡ some (reservation_of (text "b1") (text "r1")))
      × MayRead ann (text "lux") (text "ann"))
get_reservation_iff_example =
    get_reservation_iff ann sold (text "b1") (reservation_of (text "b1") (text "r1"))

catalog-isolated_example :
    All (λ m. m.movie_provider_id ≡ ann.movie_provider_id) (list_movies ann sold)
    × All (λ c. c.movie_provider_id ≡ ann.movie_provider_id) (list_screenings ann none sold)
    × All
        (λ x. x.movie_provider_id ≡ ann.movie_provider_id)
        (list_seats_for_screening ann (text "evening") sold)
    × All
        (λ seats. All (λ x. x.movie_provider_id ≡ ann.movie_provider_id) seats)
        (values (list_seats_for_screenings ann (text "evening" ∷ []) sold))
catalog-isolated_example = catalog-isolated ann sold none (text "evening") (text "evening" ∷ [])

abbrev snapshot : ScreeningAvailability
snapshot = record {
  screening_id = text "evening";
  seats = (record { seat_id = text "a1"; available = false }) ∷ [];
}

read_availability-find_conflict_example :
    All
      (λ (x : SeatAvailability).
        (x.available ≡ true) ↔ ((find_conflict (text "evening") (x.seat_id ∷ []) sold).0 ≡ ok none))
      snapshot.seats
unfolding read_availability get values ◌===◌ includes
read_availability-find_conflict_example =
    read_availability-find_conflict (text "lux") (text "evening") sold snapshot ((λ e. refl), tt)
      refl

-- A token of an administrator.
abbrev token : Fields
token = field (text "sub") (string (text "ann")) (
    field (text "movie_provider_id") (string (text "550e8400-e29b-41d4-a716-446655440abc")) (
      field (text "realm_access")
        (object (
          field (text "roles") (array (element (string (text "TENANT_ADMIN")) no_elements))
            no_fields))
        no_fields))

abbrev token_user : AuthenticatedUser
token_user = record {
  user_id = text "ann";
  username = text "ann";
  email = [];
  roles = UserRole.tenant_admin ∷ [];
  scopes = [];
  movie_provider_id = text "550e8400-e29b-41d4-a716-446655440abc";
  movie_provider_code = none;
}

parse_movie_reservation_claims-IsIdentity_example : IsIdentity token token_user
unfolding parse_movie_reservation_claims read_required_string_claim lookup ◌===◌ trim
    read_optional_movie_provider_code_claim create_user_id create_required_movie_provider_id_claim
    create_uuid_id parse_roles parse_scopes
parse_movie_reservation_claims-IsIdentity_example =
    parse_movie_reservation_claims-IsIdentity token token_user refl

abbrev verifier : JsString → JsString → Bool
verifier u p = u === text "ann"

abbrev body : Json
body = object (
    field (text "username") (string (text "ann"))
      (field (text "password") (string (text "secret")) no_fields))

authenticate_iff_example :
    (authenticate verifier body ≡ Login.Outcome.authenticated) ↔ IsLogin verifier body
authenticate_iff_example = authenticate_iff verifier body

abbrev lost_audit : Outcome → Recorded
lost_audit outcome = Login.Recorded.emission_unavailable

abbrev answer : LoginResult
answer = record { decision = true; receipt = none }

abbrev response : PutEventsResponse
response = record {
  failed_entry_count = some 0;
  entries =
      some ((record { event_id = some (text "e1"); error_code = none; error_message = none }) ∷ []);
}

inspect_put_events_response_iff_example :
    (inspect_put_events_response response (text "a1")
      ≡ PublishResult.accepted (text "a1") (some (text "e1")))
    ↔ ((text "a1" ≡ text "a1")
        × ((event_id : JsString) × (some (text "e1") ≡ some event_id)
            × IsTaken response.failed_entry_count response.entries event_id))
inspect_put_events_response_iff_example =
    inspect_put_events_response_iff response (text "a1") (text "a1") (some (text "e1"))

abbrev deployed : Env
deployed = record {
  composition_profile = CompositionProfile.production_oidc;
  database_url = some (text "postgres://db");
  database_pool_min = 0;
  database_pool_max = 5;
  reservation_worker_mode = WorkerMode.disabled;
  reservation_worker_lease_ms = 30000;
  reservation_worker_heartbeat_interval_ms = 10000;
  failure_injection_mode = FailureMode.disabled;
  failure_injection_rate = 0;
  failure_injection_salt = none;
  node_env = NodeEnv.production;
  demo_auth_enabled = false;
  demo_auth_username = none;
  demo_auth_password = none;
  audit_publisher = AuditPublisher.eventbridge;
  audit_event_bus_arn = some (text "arn");
  audit_publish_timeout_ms = 1000;
  audit_stdout_comparison_mirror = false;
  enable_graphiql = none;
}

abbrev deployed_config : Config.Config
deployed_config = record {
  env = deployed;
  auth_mode = Config.AuthMode.oidc;
  persistence_mode = Config.PersistenceMode.postgres;
  demo_auth = Config.DemoAuthSettings.disabled;
  audit = Config.AuditPublisherSettings.eventbridge (text "arn") 1000 false;
  failure_injection = Config.FailureInjection.disabled;
  enable_graphiql = false;
}

parse_config-IsSound_example :
    IsSound deployed
    × (deployed_config.auth_mode ≡ auth_mode deployed.composition_profile)
    × (deployed_config.persistence_mode ≡ persistence_mode deployed.composition_profile)
unfolding parse_config trim
parse_config-IsSound_example = parse_config-IsSound deployed deployed_config refl

parse_config-not-thrown_example : parse_config deployed ≢ thrown
parse_config-not-thrown_example = parse_config-not-thrown deployed
