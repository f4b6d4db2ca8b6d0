-- ===== src/Config.antt =====
-- pfm/app/config.py: the settings of the process and the tests that refuse them at the start. What
-- pydantic reads from the environment is the argument of the validators; a float is an element of the
-- parameter `F`, with the two tests that the code makes of one; `str.lower` and `str.upper` are
-- parameters.
pub mod Requirements
pub mod Limits
pub mod Values
pub mod Entries
pub mod Printing
mod Tests
use Prim.Native.String.{◌++◌}
use thryve_financial.Base.{
  ℕ, String, Bool, true, false, not, ◌&&◌, ◌||◌, Option, none, some, List, [], ◌∷◌, ◌==◌, Integer,
  exceeds, if◌then◌else◌,
}
use thryve_financial.RateLimit.{RateLimitConfig}
use thryve_financial.Problem.Response.{without_slashes}

pub data Environment : Type 0 where
  development staging production : Environment

pub data TelemetryExporter : Type 0 where
  no_exporter console otlp : TelemetryExporter

pub record AuthConfig (F : Type 0) : Type 0 where
  pub supabase_url : String
  pub issuer : String
  pub audience : String
  pub supabase_anon_key : String
  pub supabase_jwks_url : String
  pub accepted_algorithms : List String
  pub required_claims : List String
  pub clock_skew_seconds : Integer
  pub jwks_cache_ttl_seconds : Integer
  pub jwks_refresh_timeout_seconds : F

pub record PlaidConfig : Type 0 where
  pub client_id : String
  pub secret : String

pub record AnthropicConfig : Type 0 where
  pub api_key : String

pub record ObservabilityConfig (F : Type 0) : Type 0 where
  pub traces_exporter : TelemetryExporter
  pub metrics_exporter : TelemetryExporter
  pub logs_exporter : TelemetryExporter
  pub otlp_endpoint : String
  pub otlp_traces_endpoint : String
  pub otlp_metrics_endpoint : String
  pub sampling_ratio : F
  pub bsp_schedule_delay_millis : Integer
  pub bsp_export_timeout_millis : Integer
  pub bsp_max_queue_size : Integer
  pub bsp_max_export_batch_size : Integer
  pub metric_export_interval_millis : Integer
  pub api_service_name : String
  pub worker_service_name : String
  pub beat_service_name : String

-- `RateLimitConfig` as it is read, before its values are known to be positive.
pub record RateLimitValues : Type 0 where
  pub default_limit : Integer
  pub default_window_seconds : Integer
  pub write_limit : Integer
  pub write_window_seconds : Integer
  pub expensive_limit : Integer
  pub expensive_window_seconds : Integer
  pub auth_limit : Integer
  pub auth_window_seconds : Integer

pub record Settings (F : Type 0) : Type 0 where
  pub environment : Environment
  pub auth : AuthConfig F
  pub plaid : PlaidConfig
  pub anthropic : AnthropicConfig
  pub observability : ObservabilityConfig F
  pub rate_limit : RateLimitValues
  pub request_timeout : Integer
  pub request_max_body_size : Integer
  pub shutdown_timeout : Integer

-- The error of a refused process: its message names the values or the value.
pub data SettingsError : Type 0 where
  missing_values : List String → SettingsError
  logs_exported traces_not_otlp metrics_not_otlp : SettingsError
  endpoint_missing : String → SettingsError
  sampling_ratio_out_of_range : SettingsError
  not_positive : String → SettingsError
  is_negative : String → SettingsError

pub data Validated : Type 0 where
  accepted : Validated
  refused : SettingsError → Validated

abbrev pub is_otlp : TelemetryExporter → Bool
is_otlp otlp = true
is_otlp no_exporter = false
is_otlp console = false

abbrev pub is_no_exporter : TelemetryExporter → Bool
is_no_exporter no_exporter = true
is_no_exporter otlp = false
is_no_exporter console = false

-- `self.environment in (STAGING, PRODUCTION)`
abbrev pub is_deployed : Environment → Bool
is_deployed development = false
is_deployed staging = true
is_deployed production = true

-- `x or fallback`
abbrev pub or_other : String → String → String
or_other s fallback = if s == "" then fallback else s

-- `signal_endpoint("traces")` and `signal_endpoint("metrics")`
abbrev pub traces_endpoint : {F : Type 0} → ObservabilityConfig F → String
traces_endpoint o = or_other o.otlp_traces_endpoint o.otlp_endpoint

abbrev pub metrics_endpoint : {F : Type 0} → ObservabilityConfig F → String
metrics_endpoint o = or_other o.otlp_metrics_endpoint o.otlp_endpoint

-- `service_name_for_role`; none is its `ValueError`.
abbrev pub service_name_for_role : {F : Type 0} → ObservabilityConfig F → String → Option String
service_name_for_role o role =
    if role == "api"
    then some o.api_service_name
    else if role == "worker"
    then some o.worker_service_name
    else if role == "beat"
    then some o.beat_service_name
    else none

unfoldable pub resolved_issuer : {F : Type 0} → AuthConfig F → String
unfolding without_slashes
resolved_issuer a =
    if not (a.issuer == "")
    then without_slashes a.issuer
    else if not (a.supabase_url == "")
    then without_slashes a.supabase_url ++ "/auth/v1"
    else ""

unfoldable pub resolved_jwks_url : {F : Type 0} → AuthConfig F → String
unfolding resolved_issuer
resolved_jwks_url a =
    if not (a.supabase_jwks_url == "")
    then a.supabase_jwks_url
    else if not (resolved_issuer a == "")
    then resolved_issuer a ++ "/.well-known/jwks.json"
    else ""

-- A name that is listed when its value is empty.
abbrev pub if_missing : String → String → List String → List String
if_missing value name rest = if value == "" then name ∷ rest else rest

-- `missing`
abbrev pub missing : {F : Type 0} → Settings F → List String
missing s = if_missing s.auth.supabase_url "AUTH_SUPABASE_URL" (
    if_missing s.auth.audience "AUTH_AUDIENCE" (
      if_missing s.auth.supabase_anon_key "AUTH_SUPABASE_ANON_KEY" (
        if_missing s.anthropic.api_key "ANTHROPIC_API_KEY" (
          if_missing s.plaid.client_id "PLAID_CLIENT_ID"
            (if_missing s.plaid.secret "PLAID_SECRET" [])))))

abbrev pub has_items : List String → Bool
has_items [] = false
has_items (x ∷ xs) = true

-- An `if` that raises, and what comes after it.
abbrev pub unless : Bool → SettingsError → Validated → Validated
unless bad refusal rest = if bad then refused refusal else rest

-- The first of the named values that is not positive raises.
abbrev pub all_positive : List (String × Integer) → Validated → Validated
all_positive [] rest = rest
all_positive ((name, value) ∷ values) rest =
    unless (not (exceeds value 0)) (not_positive name) (all_positive values rest)

-- The values of settings that are accepted.
unfoldable pub natural_limits : RateLimitValues → RateLimitConfig
natural_limits r = record {
  default_limit = r.default_limit.magnitude;
  default_window_seconds = r.default_window_seconds.magnitude;
  write_limit = r.write_limit.magnitude;
  write_window_seconds = r.write_window_seconds.magnitude;
  expensive_limit = r.expensive_limit.magnitude;
  expensive_window_seconds = r.expensive_window_seconds.magnitude;
  auth_limit = r.auth_limit.magnitude;
  auth_window_seconds = r.auth_window_seconds.magnitude;
}

-- `self.rate_limit.model_dump().items()`
abbrev pub rate_limit_items : RateLimitValues → List (String × Integer)
rate_limit_items r =
    ("default_limit", r.default_limit)
    ∷ ("default_window_seconds", r.default_window_seconds)
    ∷ ("write_limit", r.write_limit)
    ∷ ("write_window_seconds", r.write_window_seconds)
    ∷ ("expensive_limit", r.expensive_limit)
    ∷ ("expensive_window_seconds", r.expensive_window_seconds)
    ∷ ("auth_limit", r.auth_limit)
    ∷ ("auth_window_seconds", r.auth_window_seconds)
    ∷ []

abbrev pub observability_items : {F : Type 0} → ObservabilityConfig F → List (String × Integer)
observability_items o =
    ("bsp_schedule_delay_millis", o.bsp_schedule_delay_millis)
    ∷ ("bsp_export_timeout_millis", o.bsp_export_timeout_millis)
    ∷ ("bsp_max_queue_size", o.bsp_max_queue_size)
    ∷ ("bsp_max_export_batch_size", o.bsp_max_export_batch_size)
    ∷ ("metric_export_interval_millis", o.metric_export_interval_millis)
    ∷ []

abbrev pub request_items : {F : Type 0} → Settings F → List (String × Integer)
request_items s =
    ("request_timeout", s.request_timeout)
    ∷ ("request_max_body_size", s.request_max_body_size)
    ∷ ("shutdown_timeout", s.shutdown_timeout)
    ∷ []

-- The tests of a float: `0 <= x <= 1` and `x > 0`.
pub record FloatTests (F : Type 0) : Type 0 where
  pub is_ratio : F → Bool
  pub is_positive : F → Bool

-- The tests of the authentication's numbers, which are the last.
abbrev pub validate_auth : {F : Type 0} → FloatTests F → AuthConfig F → Validated
validate_auth t a = unless a.clock_skew_seconds.negative (is_negative "clock_skew_seconds") (
    unless (not (exceeds a.jwks_cache_ttl_seconds 0)) (not_positive "jwks_cache_ttl_seconds") (
      unless (not (t.is_positive a.jwks_refresh_timeout_seconds))
        (not_positive "jwks_refresh_timeout_seconds") accepted))

-- The tests of the numbers.
abbrev pub validate_numbers : {F : Type 0} → FloatTests F → Settings F → Validated
validate_numbers t s =
    unless (not (t.is_ratio s.observability.sampling_ratio)) sampling_ratio_out_of_range (
      all_positive (request_items s) (
        all_positive (observability_items s.observability)
          (all_positive (rate_limit_items s.rate_limit) (validate_auth t s.auth))))

-- The tests of the exporters.
abbrev pub validate_exporters : {F : Type 0} → Settings F → Validated → Validated
validate_exporters s rest =
    let o = s.observability in
    unless (not (is_no_exporter o.logs_exporter)) logs_exported (
      unless (is_deployed s.environment && not (is_otlp o.traces_exporter)) traces_not_otlp (
        unless (is_deployed s.environment && not (is_otlp o.metrics_exporter)) metrics_not_otlp (
          unless (is_otlp o.traces_exporter && traces_endpoint o == "") (endpoint_missing "traces")
            (unless (is_otlp o.metrics_exporter && metrics_endpoint o == "")
              (endpoint_missing "metrics") rest))))

unfoldable pub validate_production_requirements :
    {F : Type 0} → FloatTests F → Settings F → Validated
validate_production_requirements t s =
    unless (is_deployed s.environment && has_items (missing s)) (missing_values (missing s))
      (validate_exporters s (validate_numbers t s))
