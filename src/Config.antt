-- ===== src/Config.antt =====
-- src/config.ts: what its schema does after the single fields are read, which is zod's work. The
-- fields that are passed on unchecked (PORT, HOST, LOG_LEVEL and names) are left out. Of the rate of
-- failures only the sign is looked at, so it is counted in a small unit.
pub mod Laws
use movie_reservation_servic.Prelude.{
  ℕ, Bool, true, false, not, ◌&&◌, ◌||◌, Option, none, some, List, [], ◌∷◌, ◌++◌, JsString, length,
  ltb, leb, ◌==◌, if◌then◌else◌,
}
use movie_reservation_servic.Domain.Ids.{trim}

pub data NodeEnv : Type 0 where
  development test staging production : NodeEnv

pub data CompositionProfile : Type 0 where
  local_fixed_user local_jwt local_postgres production_oidc : CompositionProfile

pub data AuthMode : Type 0 where
  local_fixed_user local_jwt oidc : AuthMode

pub data PersistenceMode : Type 0 where
  in_memory postgres : PersistenceMode

pub data WorkerMode : Type 0 where
  disabled fake_in_process : WorkerMode

pub data FailureMode : Type 0 where
  disabled stable_random_unexpected_error : FailureMode

pub data AuditPublisher : Type 0 where
  stdout eventbridge : AuditPublisher

-- The fields of the schema, read.
pub record Env : Type 0 where
  pub composition_profile : CompositionProfile
  pub database_url : Option JsString
  pub database_pool_min : ℕ
  pub database_pool_max : ℕ
  pub reservation_worker_mode : WorkerMode
  pub reservation_worker_lease_ms : ℕ
  pub reservation_worker_heartbeat_interval_ms : ℕ
  pub failure_injection_mode : FailureMode
  pub failure_injection_rate : ℕ
  pub failure_injection_salt : Option JsString
  pub node_env : NodeEnv
  pub demo_auth_enabled : Bool
  pub demo_auth_username : Option JsString
  pub demo_auth_password : Option JsString
  pub audit_publisher : AuditPublisher
  pub audit_event_bus_arn : Option JsString
  pub audit_publish_timeout_ms : ℕ
  pub audit_stdout_comparison_mirror : Bool
  pub enable_graphiql : Option Bool

-- `compositionProfileDependencyModes`
abbrev pub auth_mode : CompositionProfile → AuthMode
auth_mode CompositionProfile.local_fixed_user = AuthMode.local_fixed_user
auth_mode CompositionProfile.local_jwt = AuthMode.local_jwt
auth_mode CompositionProfile.local_postgres = AuthMode.local_fixed_user
auth_mode CompositionProfile.production_oidc = AuthMode.oidc

abbrev pub persistence_mode : CompositionProfile → PersistenceMode
persistence_mode CompositionProfile.local_fixed_user = in_memory
persistence_mode CompositionProfile.local_jwt = in_memory
persistence_mode CompositionProfile.local_postgres = postgres
persistence_mode CompositionProfile.production_oidc = postgres

-- The issues that `superRefine` adds, by what they are about.
pub data Issue : Type 0 where
  demo_auth_not_allowed demo_username_required demo_password_required local_auth_not_allowed : Issue
  fake_worker_not_allowed database_url_required pool_max_below_min bus_arn_required : Issue
  heartbeat_not_below_lease rate_without_injection rate_required salt_required : Issue

-- `NODE_ENV === 'staging' || NODE_ENV === 'production'`
abbrev pub is_deployed : NodeEnv → Bool
is_deployed development = false
is_deployed test = false
is_deployed staging = true
is_deployed production = true

-- `AUTH_MODE.startsWith('local-')`
abbrev is_local : AuthMode → Bool
is_local AuthMode.local_fixed_user = true
is_local AuthMode.local_jwt = true
is_local AuthMode.oidc = false

abbrev is_postgres : PersistenceMode → Bool
is_postgres in_memory = false
is_postgres postgres = true

abbrev is_fake : WorkerMode → Bool
is_fake WorkerMode.disabled = false
is_fake WorkerMode.fake_in_process = true

abbrev is_injecting : FailureMode → Bool
is_injecting FailureMode.disabled = false
is_injecting FailureMode.stable_random_unexpected_error = true

abbrev is_eventbridge : AuditPublisher → Bool
is_eventbridge stdout = false
is_eventbridge eventbridge = true

abbrev is_undefined : Option JsString → Bool
is_undefined none = true
is_undefined (some s) = false

abbrev is_blank : Option JsString → Bool
is_blank none = true
is_blank (some s) = length (trim s) == 0

abbrev pub when : Bool → Issue → List Issue → List Issue
when true issue rest = issue ∷ rest
when false issue rest = rest

-- The issues, in the order in which they are added.
unfoldable pub issues : Env → List Issue
issues env = when (env.demo_auth_enabled && is_deployed env.node_env) demo_auth_not_allowed (
    when (env.demo_auth_enabled && is_blank env.demo_auth_username) demo_username_required (
      when (env.demo_auth_enabled && is_blank env.demo_auth_password) demo_password_required (
        when (is_local (auth_mode env.composition_profile) && is_deployed env.node_env)
          local_auth_not_allowed
          (when (is_fake env.reservation_worker_mode && is_deployed env.node_env)
            fake_worker_not_allowed
            (when
              (is_postgres (persistence_mode env.composition_profile)
                && is_undefined env.database_url)
              database_url_required
              (when (ltb env.database_pool_max env.database_pool_min) pool_max_below_min (
                when (is_eventbridge env.audit_publisher && is_blank env.audit_event_bus_arn)
                  bus_arn_required
                  (when
                    (leb env.reservation_worker_lease_ms
                      env.reservation_worker_heartbeat_interval_ms)
                    heartbeat_not_below_lease
                    (when
                      (not (is_injecting env.failure_injection_mode)
                        && ltb 0 env.failure_injection_rate)
                      rate_without_injection
                      (when
                        (is_injecting env.failure_injection_mode
                          && leb env.failure_injection_rate 0)
                        rate_required
                        (when
                          (is_injecting env.failure_injection_mode
                            && is_undefined env.failure_injection_salt)
                          salt_required [])))))))))))

pub data DemoAuthSettings : Type 0 where
  disabled : DemoAuthSettings
  enabled : (username password : JsString) → DemoAuthSettings

pub data AuditPublisherSettings : Type 0 where
  stdout : AuditPublisherSettings
  eventbridge :
      (event_bus_arn : JsString) (timeout_ms : ℕ) (stdout_comparison_mirror : Bool)
      → AuditPublisherSettings

pub data FailureInjection : Type 0 where
  disabled : FailureInjection
  stable_random_unexpected_error : (failure_rate : ℕ) (salt : JsString) → FailureInjection

pub record Config : Type 0 where
  pub env : Env
  pub auth_mode : AuthMode
  pub persistence_mode : PersistenceMode
  pub demo_auth : DemoAuthSettings
  pub audit : AuditPublisherSettings
  pub failure_injection : FailureInjection
  pub enable_graphiql : Bool

-- `none` where the function throws.
unfoldable pub create_demo_auth_settings :
    Bool → Option JsString → Option JsString → Option DemoAuthSettings
create_demo_auth_settings false username password = some DemoAuthSettings.disabled
create_demo_auth_settings true (some username) (some password) =
    some (DemoAuthSettings.enabled username password)
create_demo_auth_settings true none password = none
create_demo_auth_settings true (some username) none = none

unfoldable pub create_audit_publisher_settings :
    AuditPublisher → Option JsString → ℕ → Bool → Option AuditPublisherSettings
create_audit_publisher_settings AuditPublisher.stdout arn timeout_ms mirror =
    some AuditPublisherSettings.stdout
create_audit_publisher_settings AuditPublisher.eventbridge none timeout_ms mirror = none
create_audit_publisher_settings AuditPublisher.eventbridge (some arn) timeout_ms mirror =
    some (AuditPublisherSettings.eventbridge arn timeout_ms mirror)

unfoldable pub create_reservation_failure_injection :
    FailureMode → ℕ → Option JsString → Option FailureInjection
create_reservation_failure_injection FailureMode.disabled rate salt = some FailureInjection.disabled
create_reservation_failure_injection FailureMode.stable_random_unexpected_error rate none = none
create_reservation_failure_injection FailureMode.stable_random_unexpected_error rate (some salt) =
    some (FailureInjection.stable_random_unexpected_error rate salt)

-- `ENABLE_GRAPHIQL ?? (NODE_ENV === 'development' || NODE_ENV === 'test')`
abbrev pub graphiql : Option Bool → NodeEnv → Bool
graphiql none e = not (is_deployed e)
graphiql (some b) e = b

pub data Parsed : Type 0 where
  parsed : Config → Parsed
  refused : List Issue → Parsed
  thrown : Parsed

abbrev assemble :
    Env → Option DemoAuthSettings → Option AuditPublisherSettings → Option FailureInjection → Parsed
assemble env (some demo_auth) (some audit) (some failure_injection) = parsed (record {
  env = env;
  auth_mode = auth_mode env.composition_profile;
  persistence_mode = persistence_mode env.composition_profile;
  demo_auth = demo_auth;
  audit = audit;
  failure_injection = failure_injection;
  enable_graphiql = graphiql env.enable_graphiql env.node_env;
})
assemble env demo_auth audit failure_injection = thrown

-- The last `transform`.
abbrev pub transformed : Env → Parsed
transformed env =
    assemble env
      (create_demo_auth_settings env.demo_auth_enabled env.demo_auth_username
        env.demo_auth_password)
      (create_audit_publisher_settings env.audit_publisher env.audit_event_bus_arn
        env.audit_publish_timeout_ms env.audit_stdout_comparison_mirror)
      (create_reservation_failure_injection env.failure_injection_mode env.failure_injection_rate
        env.failure_injection_salt)

abbrev unless_refused : List Issue → Parsed → Parsed
unless_refused [] result = result
unless_refused (issue ∷ rest) result = refused (issue ∷ rest)

-- `parseConfig`, on the fields that were read.
unfoldable pub parse_config : Env → Parsed
unfolding issues create_demo_auth_settings create_audit_publisher_settings
    create_reservation_failure_injection
parse_config env = unless_refused (issues env) (transformed env)
