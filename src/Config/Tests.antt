-- ===== src/Config/Tests.antt =====
-- Settings at small values.
use thryve_financial.Base.{
  ◌≡◌, refl, String, Bool, true, false, none, some, [], ◌∷◌, Integer, strip, lstrip, rstrip,
}
use thryve_financial.RateLimit.Limiter.{AppState}
use thryve_financial.Redis.{new_service}
use thryve_financial.Problem.Response.{without_slashes}
use thryve_financial.Config.{
  Settings, AuthConfig, ObservabilityConfig, FloatTests, RateLimitValues, production, otlp,
  no_exporter, accepted, refused, missing_values, validate_production_requirements,
  resolved_jwks_url, resolved_issuer,
}
use thryve_financial.Config.Values.{
  parse_key_values, parse_entries, parse_string_list, stripped_items, split_on, partition,
  normalize_debug,
}

abbrev positive : Integer
positive = record { negative = false; magnitude = 5 }

abbrev same : String → String
same s = s

-- Each float is one.
abbrev floats : FloatTests Bool
floats = record { is_ratio = λ b. b; is_positive = λ b. b }

abbrev auth_config : AuthConfig Bool
auth_config = record {
  supabase_url = "https://x.example//";
  issuer = "";
  audience = "app";
  supabase_anon_key = "k";
  supabase_jwks_url = "";
  accepted_algorithms = "RS256" ∷ [];
  required_claims = [];
  clock_skew_seconds = positive;
  jwks_cache_ttl_seconds = positive;
  jwks_refresh_timeout_seconds = true;
}

abbrev observability_config : ObservabilityConfig Bool
observability_config = record {
  traces_exporter = otlp;
  metrics_exporter = otlp;
  logs_exporter = no_exporter;
  otlp_endpoint = "http://collector";
  otlp_traces_endpoint = "";
  otlp_metrics_endpoint = "";
  sampling_ratio = true;
  bsp_schedule_delay_millis = positive;
  bsp_export_timeout_millis = positive;
  bsp_max_queue_size = positive;
  bsp_max_export_batch_size = positive;
  metric_export_interval_millis = positive;
  api_service_name = "pfm-api";
  worker_service_name = "pfm-worker";
  beat_service_name = "pfm-beat";
}

abbrev limits : RateLimitValues
limits = record {
  default_limit = positive;
  default_window_seconds = positive;
  write_limit = positive;
  write_window_seconds = positive;
  expensive_limit = positive;
  expensive_window_seconds = positive;
  auth_limit = positive;
  auth_window_seconds = positive;
}

abbrev settings : Settings Bool
settings = record {
  environment = production;
  auth = auth_config;
  plaid = record { client_id = "c"; secret = "s" };
  anthropic = record { api_key = "a" };
  observability = observability_config;
  rate_limit = limits;
  request_timeout = positive;
  request_max_body_size = positive;
  shutdown_timeout = positive;
}

settings_accepted : validate_production_requirements floats settings ≡ accepted
unfolding validate_production_requirements
settings_accepted = refl

without_secret :
    validate_production_requirements floats
      (record settings { plaid = record { client_id = ""; secret = "" } })
    ≡ refused (missing_values ("PLAID_CLIENT_ID" ∷ "PLAID_SECRET" ∷ []))
unfolding validate_production_requirements
without_secret = refl

jwks_url : resolved_jwks_url auth_config ≡ "https://x.example/auth/v1/.well-known/jwks.json"
unfolding resolved_jwks_url resolved_issuer without_slashes
jwks_url = refl

abbrev app : AppState
app = record { redis = 0; world = new_service; rate_limit_cache = none }

blanks_skipped : parse_string_list " RS256,, ES256 ,  " ≡ ("RS256" ∷ "ES256" ∷ [])
unfolding parse_string_list stripped_items split_on strip lstrip rstrip
blanks_skipped = refl

no_separator : parse_key_values "a=1, b" ≡ none
unfolding parse_key_values parse_entries split_on partition strip lstrip rstrip
no_separator = refl

off : normalize_debug same " off" ≡ some false
unfolding normalize_debug strip lstrip rstrip
off = refl
