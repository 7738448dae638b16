-- ===== src/Config/Laws.antt =====
-- The rules for the configuration of src/config.ts.
use movie_reservation_servic.Prelude.{
  ℕ, ◌≤◌, ◌<◌, ◌≡◌, ◌≢◌, ◌↔◌, ◌⊎◌, inl, inr, refl, Bool, true, false, not, ◌&&◌, Option, none, some,
  List, [], ◌∷◌, JsString, ltb, leb, arith,
}
use movie_reservation_servic.Domain.Ids.{trim}
use movie_reservation_servic.Config
use movie_reservation_servic.Config.{
  CompositionProfile, AuthMode, PersistenceMode, WorkerMode, FailureMode, AuditPublisher, Env,
  Issue, auth_mode, persistence_mode, is_deployed, is_local, is_postgres, is_fake, is_injecting,
  is_eventbridge, is_undefined, is_blank, when, issues, parsed, thrown, parse_config, graphiql,
  create_demo_auth_settings, create_audit_publisher_settings, create_reservation_failure_injection,
}

-- The option is a text that is not blank.
abbrev pub IsText : Option JsString → Type 0
IsText o = (s : JsString) × (o ≡ some s) × (trim s ≢ [])

abbrev pub IsGiven : Option JsString → Type 0
IsGiven o = (s : JsString) × (o ≡ some s)

-- The rules for a configuration.
pub record IsSound (env : Env) : Type 0 where
  pub deployed :
      is_deployed env.node_env ≡ true
      → (env.demo_auth_enabled ≡ false)
        × (auth_mode env.composition_profile ≡ AuthMode.oidc)
        × (env.reservation_worker_mode ≡ WorkerMode.disabled)
  pub demo_auth :
      env.demo_auth_enabled ≡ true → IsText env.demo_auth_username × IsText env.demo_auth_password
  pub database_url :
      persistence_mode env.composition_profile ≡ PersistenceMode.postgres → IsGiven env.database_url
  pub database_pool : env.database_pool_min ≤ env.database_pool_max
  pub event_bus : env.audit_publisher ≡ AuditPublisher.eventbridge → IsText env.audit_event_bus_arn
  pub lease : env.reservation_worker_heartbeat_interval_ms < env.reservation_worker_lease_ms
  pub failure_rate :
      (env.failure_injection_mode ≡ FailureMode.stable_random_unexpected_error)
      ↔ (0 < env.failure_injection_rate)
  pub failure_salt :
      env.failure_injection_mode ≡ FailureMode.stable_random_unexpected_error
      → IsGiven env.failure_injection_salt

is_blank_lem : (o : Option JsString) → is_blank o ≡ false → IsText o
is_blank_lem none h = absurd (ground arith)
is_blank_lem (some s) h = (s, refl, λ e. ground arith)

is_undefined_lem : (o : Option JsString) → is_undefined o ≡ false → IsGiven o
is_undefined_lem none h = absurd (ground arith)
is_undefined_lem (some s) h = (s, refl)

-- `when` over a list of tests and issues.
List-cases : (xs : List Issue) → (xs ≡ []) ⊎ ((i : Issue) × (rest : List Issue) × (xs ≡ i ∷ rest))
List-cases [] = inl refl
List-cases (i ∷ rest) = inr (i, rest, refl)

none_of :
    (b : Bool) (i : Issue) (rest : List Issue) → when b i rest ≡ [] → (b ≡ false) × (rest ≡ [])
none_of true i rest h = absurd (ground arith)
none_of false i rest h = (refl, h)

local-lem : (p : CompositionProfile) → is_local (auth_mode p) ≡ false → auth_mode p ≡ AuthMode.oidc
local-lem CompositionProfile.production_oidc h = refl
local-lem p h = absurd (ground arith)

fake-lem : (w : WorkerMode) → is_fake w ≡ false → w ≡ WorkerMode.disabled
fake-lem WorkerMode.disabled h = refl
fake-lem WorkerMode.fake_in_process h = absurd (ground arith)

injecting-lem :
    (f : FailureMode) → is_injecting f ≡ true → f ≡ FailureMode.stable_random_unexpected_error
injecting-lem FailureMode.stable_random_unexpected_error h = refl
injecting-lem FailureMode.disabled h = absurd (ground arith)

module _ (env : Env) (h : issues env ≡ []) where
  -- None of the tests of `superRefine` is met.
  tests_fail :
      ((env.demo_auth_enabled && is_deployed env.node_env) ≡ false)
      × ((env.demo_auth_enabled && is_blank env.demo_auth_username) ≡ false)
      × ((env.demo_auth_enabled && is_blank env.demo_auth_password) ≡ false)
      × ((is_local (auth_mode env.composition_profile) && is_deployed env.node_env) ≡ false)
      × ((is_fake env.reservation_worker_mode && is_deployed env.node_env) ≡ false)
      × ((is_postgres (persistence_mode env.composition_profile) && is_undefined env.database_url)
          ≡ false)
      × (ltb env.database_pool_max env.database_pool_min ≡ false)
      × ((is_eventbridge env.audit_publisher && is_blank env.audit_event_bus_arn) ≡ false)
      × (leb env.reservation_worker_lease_ms env.reservation_worker_heartbeat_interval_ms ≡ false)
      × ((not (is_injecting env.failure_injection_mode) && ltb 0 env.failure_injection_rate)
          ≡ false)
      × ((is_injecting env.failure_injection_mode && leb env.failure_injection_rate 0) ≡ false)
      × ((is_injecting env.failure_injection_mode && is_undefined env.failure_injection_salt)
          ≡ false)
  unfolding issues
  tests_fail =
      let (a, ra) = none_of _ Issue.demo_auth_not_allowed _ h in
      let (b, rb) = none_of _ Issue.demo_username_required _ ra in
      let (c, rc) = none_of _ Issue.demo_password_required _ rb in
      let (d, rd) = none_of _ Issue.local_auth_not_allowed _ rc in
      let (e, re) = none_of _ Issue.fake_worker_not_allowed _ rd in
      let (f, rf) = none_of _ Issue.database_url_required _ re in
      let (g, rg) = none_of _ Issue.pool_max_below_min _ rf in
      let (i, ri) = none_of _ Issue.bus_arn_required _ rg in
      let (j, rj) = none_of _ Issue.heartbeat_not_below_lease _ ri in
      let (k, rk) = none_of _ Issue.rate_without_injection _ rj in
      let (l, rl) = none_of _ Issue.rate_required _ rk in
      (a, b, c, d, e, f, g, i, j, k, l, (none_of _ Issue.salt_required [] rl).0)

  -- An environment without issues is sound.
  issues-IsSound : IsSound env
  issues-IsSound =
      let (a, b, c, d, e, f, g, i, j, k, l, m) = tests_fail in
      record {
        deployed = λ x. (
          ground arith,
          local-lem env.composition_profile (ground arith),
          fake-lem env.reservation_worker_mode (ground arith),
        );
        demo_auth = λ x. (
          is_blank_lem env.demo_auth_username (ground arith),
          is_blank_lem env.demo_auth_password (ground arith),
        );
        database_url = λ x. is_undefined_lem env.database_url (ground arith);
        database_pool = ground arith;
        event_bus = λ x. is_blank_lem env.audit_event_bus_arn (ground arith);
        lease = ground arith;
        failure_rate =
            (λ x. ground arith, λ x. injecting-lem env.failure_injection_mode (ground arith));
        failure_salt = λ x. is_undefined_lem env.failure_injection_salt (ground arith);
      }

demo-made :
    (on : Bool) (u p : Option JsString)
    → (on ≡ true → IsText u × IsText p)
    → (d : Config.DemoAuthSettings) × (create_demo_auth_settings on u p ≡ some d)
unfolding create_demo_auth_settings
demo-made false u p h = (Config.DemoAuthSettings.disabled, refl)
demo-made true (some u) (some p) h = (Config.DemoAuthSettings.enabled u p, refl)
demo-made true none p h = let (s, e, full) = (h refl).0 in absurd (ground arith)
demo-made true (some u) none h = let (s, e, full) = (h refl).1 in absurd (ground arith)

audit-made :
    (a : AuditPublisher) (arn : Option JsString) (t : ℕ) (m : Bool)
    → (a ≡ AuditPublisher.eventbridge → IsText arn)
    → (d : Config.AuditPublisherSettings) × (create_audit_publisher_settings a arn t m ≡ some d)
unfolding create_audit_publisher_settings
audit-made AuditPublisher.stdout arn t m h = (Config.AuditPublisherSettings.stdout, refl)
audit-made AuditPublisher.eventbridge (some arn) t m h =
    (Config.AuditPublisherSettings.eventbridge arn t m, refl)
audit-made AuditPublisher.eventbridge none t m h =
    let (s, e, full) = h refl in absurd (ground arith)

injection-made :
    (f : FailureMode) (rate : ℕ) (salt : Option JsString)
    → (f ≡ FailureMode.stable_random_unexpected_error → IsGiven salt)
    → (d : Config.FailureInjection) × (create_reservation_failure_injection f rate salt ≡ some d)
unfolding create_reservation_failure_injection
injection-made FailureMode.disabled rate salt h = (Config.FailureInjection.disabled, refl)
injection-made FailureMode.stable_random_unexpected_error rate (some salt) h =
    (Config.FailureInjection.stable_random_unexpected_error rate salt, refl)
injection-made FailureMode.stable_random_unexpected_error rate none h =
    let (s, e) = h refl in absurd (ground arith)

-- The configuration that an environment without issues becomes.
made :
    (env : Env)
    → issues env ≡ []
    → (config : Config.Config) × (parse_config env ≡ parsed config)
      × (config.auth_mode ≡ auth_mode env.composition_profile)
      × (config.persistence_mode ≡ persistence_mode env.composition_profile)
unfolding parse_config
made env none_left =
    let sound = issues-IsSound env none_left in
    let (demo, e1) =
      demo-made env.demo_auth_enabled env.demo_auth_username env.demo_auth_password
        sound.demo_auth in
    let (audit, e2) =
      audit-made env.audit_publisher env.audit_event_bus_arn env.audit_publish_timeout_ms
        env.audit_stdout_comparison_mirror sound.event_bus in
    let (injection, e3) =
      injection-made env.failure_injection_mode env.failure_injection_rate
        env.failure_injection_salt sound.failure_salt in
    (
      record {
        env = env;
        auth_mode = auth_mode env.composition_profile;
        persistence_mode = persistence_mode env.composition_profile;
        demo_auth = demo;
        audit = audit;
        failure_injection = injection;
        enable_graphiql = graphiql env.enable_graphiql env.node_env;
      },
      rw (none_left, e1, e2, e3) refl,
      refl,
      refl,
    )

-- An accepted configuration is sound, and has the modes of its profile: where it is deployed, tokens
-- are checked by OIDC, and there is neither a demo login nor the fake worker; heartbeats are more
-- frequent than leases end.
pub parse_config-IsSound :
    (env : Env) (config : Config.Config)
    → parse_config env ≡ parsed config
    → IsSound env
      × (config.auth_mode ≡ auth_mode env.composition_profile)
      × (config.persistence_mode ≡ persistence_mode env.composition_profile)
unfolding parse_config
parse_config-IsSound env config h = elim (List-cases (issues env)) [
  | inr (i, rest, e) ↦ absurd (ground arith)
  | inl none_left ↦
      let (made_config, e, same_auth, same_persistence) = made env none_left in
      (issues-IsSound env none_left, ground arith, ground arith)
]

-- A configuration without issues is accepted: after the checks, none of the functions that assemble
-- the settings throws.
pub parse_config-not-thrown : (env : Env) → parse_config env ≢ thrown
unfolding parse_config
parse_config-not-thrown env h = elim (List-cases (issues env)) [
  | inr (i, rest, e) ↦ absurd (ground arith)
  | inl none_left ↦
      let (config, e, same_auth, same_persistence) = made env none_left in absurd (ground arith)
]
