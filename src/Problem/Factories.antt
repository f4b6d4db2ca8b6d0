-- ===== src/Problem/Factories.antt =====
-- pfm/app/core/exceptions.py: the named factories. `str.capitalize` is a parameter.
use Prim.Native.String.{◌++◌}
use thryve_financial.Base.{ℕ, String, Bool, true, Option, none, some, [], ◌∷◌, Dict, str}
use thryve_financial.Problem.{
  ProblemUpstream, Problem, unset, build, or_default, reauthenticate_bank, contact_support,
}
use thryve_financial.Problem.Classes.{
  dependency_unavailable_error, upstream_timeout_error, upstream_service_error,
  external_action_required_error, rate_limited_error, idempotency_in_progress_error,
  resource_not_found_error, conflict_error, authentication_required_error,
}

-- `{"Retry-After": str(n)} if n is not None else None`
abbrev pub retry_after_header : Option ℕ → Option (Dict String)
retry_after_header none = none
retry_after_header (some n) = some (("Retry-After", str n) ∷ [])

-- `RateLimitedError.for_window`
unfoldable pub for_window : ℕ → Option ℕ → Option Problem
unfolding build str
for_window window_seconds limit = build rate_limited_error (record unset {
  detail = some ("Too many requests were made. Retry in " ++ str window_seconds ++ " seconds.");
  headers = some (
      ("Retry-After", str window_seconds)
      ∷ (elim limit [ none ↦ [] | some n ↦ ("X-RateLimit-Limit", str n) ∷ [] ]));
})

-- `IdempotencyInProgressError.for_retry_after`
unfoldable pub for_retry_after : ℕ → Option Problem
unfolding build str
for_retry_after retry_after_seconds =
    build idempotency_in_progress_error
      (record unset { headers = retry_after_header (some retry_after_seconds) })

-- The context of a resource: its name, and its id where there is one.
abbrev resource_context : String → Option String → Dict String
resource_context name none = ("resource_name", name) ∷ []
resource_context name (some i) = ("resource_name", name) ∷ ("resource_id", i) ∷ []

-- `ResourceNotFoundError.for_resource`
unfoldable pub for_resource : String → Option String → Option String → Option Problem
unfolding build
for_resource name resource_id detail = build resource_not_found_error (record unset {
  detail = some (or_default detail ("The requested " ++ name ++ " was not found."));
  extra_log_context = some (resource_context name resource_id);
})

-- `ConflictError.already_exists`
unfoldable pub already_exists : String → Option String → Option String → Option Problem
unfolding build
already_exists name resource_id detail = build conflict_error (record unset {
  detail = some (or_default detail ("The requested " ++ name ++ " already exists."));
  extra_log_context = some (resource_context name resource_id);
})

-- The factories of `AuthenticationRequiredError` whose context is the reason alone.
unfoldable pub authentication_required : String → Option Problem
unfolding build
authentication_required reason =
    build authentication_required_error
      (record unset { extra_log_context = some (("auth_reason", reason) ∷ []) })

-- `AuthenticationRequiredError.invalid_token`
unfoldable pub invalid_token : Option String → Option Problem
unfolding build
invalid_token jwt_error_type = build authentication_required_error (record unset {
  extra_log_context = some (
      ("auth_reason", "invalid_token")
      ∷ (elim jwt_error_type [ none ↦ [] | some e ↦ ("jwt_error_type", e) ∷ [] ]));
})

-- `upstream or ProblemUpstream(provider=service_name)`
abbrev pub upstream_of : Option ProblemUpstream → String → ProblemUpstream
upstream_of (some u) service = u
upstream_of none service = record {
  provider = service;
  provider_code = none;
  provider_request_id = none;
}

module _ (capitalize : String → String) where
  -- `DependencyUnavailableError.for_service`
  unfoldable pub dependency_unavailable :
      String
      → Option ProblemUpstream
      → Option String
      → Option ℕ
      → Option (Dict String)
      → Option Problem
  unfolding build str
  dependency_unavailable service upstream detail retry_after context =
      build dependency_unavailable_error (record unset {
        detail = some (or_default detail (capitalize service ++ " is temporarily unavailable."));
        upstream = some (upstream_of upstream service);
        headers = retry_after_header retry_after;
        extra_log_context = context;
      })

  -- `UpstreamTimeoutError.for_service`
  unfoldable pub upstream_timeout :
      String → Option ProblemUpstream → Option String → ℕ → Option Problem
  unfolding build str
  upstream_timeout service upstream detail retry_after =
      build upstream_timeout_error (record unset {
        detail = some (or_default detail (capitalize service ++ " timed out."));
        upstream = some (upstream_of upstream service);
        headers = retry_after_header (some retry_after);
      })

  -- `UpstreamServiceError.provider_unavailable`
  unfoldable pub provider_unavailable :
      String → ProblemUpstream → Option String → Option ℕ → Option Problem
  unfolding build str
  provider_unavailable provider upstream detail retry_after =
      build upstream_service_error (record unset {
        detail = some (or_default detail (capitalize provider ++ " is temporarily unavailable."));
        upstream = some upstream;
        headers = retry_after_header retry_after;
        status = some 503;
        retryable = some true;
      })

  abbrev action_required : String → Option String → String
  action_required provider detail =
      or_default detail (capitalize provider ++ " requires additional action to continue.")

  -- `ExternalActionRequiredError.bank_reauthentication_required`
  unfoldable pub bank_reauthentication_required :
      String → ProblemUpstream → Option String → Bool → Option Problem
  unfolding build
  bank_reauthentication_required provider upstream detail retryable =
      build external_action_required_error (record unset {
        detail = some (action_required provider detail);
        upstream = some upstream;
        retryable = some retryable;
        user_action = some (some reauthenticate_bank);
      })

  -- `ExternalActionRequiredError.support_required`
  unfoldable pub support_required : String → ProblemUpstream → Option String → Bool → Option Problem
  unfolding build
  support_required provider upstream detail retryable =
      build external_action_required_error (record unset {
        detail = some (action_required provider detail);
        upstream = some upstream;
        retryable = some retryable;
        user_action = some (some contact_support);
      })
