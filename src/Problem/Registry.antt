-- ===== src/Problem/Registry.antt =====
-- pfm/app/core/exceptions.py: the registry of the problem classes, and the problem of an HTTP
-- status. The phrases of `http.HTTPStatus` are a parameter.
use Prim.Native.String.{◌++◌}
use thryve_financial.Base.{
  ℕ, String, Option, none, some, List, [], ◌∷◌, Dict, set_item, eqb, leb, ltb, str, if◌then◌else◌,
}
use thryve_financial.Problem.{
  ProblemClass, ProblemDefinition, Problem, definition, unset, build, or_default, given,
}
use thryve_financial.Problem.Classes.{
  malformed_request_error, unsupported_media_type_error, request_validation_problem,
  authentication_required_error, invalid_credentials_error, invalid_verification_code_error,
  account_not_provisioned_error, permission_denied_error, resource_not_found_error,
  method_not_allowed_problem, conflict_error, idempotency_key_required_error,
  idempotency_scope_required_error, idempotency_in_progress_error,
  idempotency_payload_mismatch_error, request_too_large_problem, rate_limited_error,
  request_deadline_exceeded_error, dependency_unavailable_error, upstream_timeout_error,
  upstream_service_error, external_action_required_error, internal_server_problem,
  generic_http_problem,
}

-- `_PROBLEM_TYPES`
abbrev pub problem_types : List ProblemClass
problem_types =
    malformed_request_error ∷ unsupported_media_type_error ∷ request_validation_problem
    ∷ authentication_required_error ∷ invalid_credentials_error ∷ invalid_verification_code_error
    ∷ account_not_provisioned_error ∷ permission_denied_error ∷ resource_not_found_error
    ∷ method_not_allowed_problem ∷ conflict_error ∷ idempotency_key_required_error
    ∷ idempotency_scope_required_error ∷ idempotency_in_progress_error
    ∷ idempotency_payload_mismatch_error ∷ request_too_large_problem ∷ rate_limited_error
    ∷ request_deadline_exceeded_error ∷ dependency_unavailable_error ∷ upstream_timeout_error
    ∷ upstream_service_error ∷ external_action_required_error ∷ internal_server_problem ∷ []

unfoldable pub by_slug : Dict ProblemDefinition → List ProblemClass → Dict ProblemDefinition
unfolding set_item
by_slug d [] = d
by_slug d (c ∷ cs) = by_slug (set_item d c.type_slug (definition c)) cs

unfoldable pub problem_definitions : Dict ProblemDefinition
unfolding by_slug
problem_definitions = by_slug [] problem_types

-- The mapping of `problem_for_status`.
abbrev pub status_mapping : List (ℕ × ProblemClass)
status_mapping =
    (400, malformed_request_error)
    ∷ (401, authentication_required_error)
    ∷ (403, permission_denied_error)
    ∷ (404, resource_not_found_error)
    ∷ (405, method_not_allowed_problem)
    ∷ (409, conflict_error)
    ∷ (413, request_too_large_problem)
    ∷ (415, unsupported_media_type_error)
    ∷ (422, request_validation_problem)
    ∷ (428, idempotency_key_required_error)
    ∷ (429, rate_limited_error)
    ∷ (500, internal_server_problem)
    ∷ (503, dependency_unavailable_error)
    ∷ (504, upstream_timeout_error)
    ∷ []

-- `mapping.get(status)`
abbrev pub class_for : List (ℕ × ProblemClass) → ℕ → Option ProblemClass
class_for [] status = none
class_for ((code, c) ∷ rest) status =
    let found = class_for rest status in if eqb code status then some c else found

-- `GenericHTTPProblem.from_status`
unfoldable pub from_status :
    (ℕ → Option String) → ℕ → Option String → Option (Dict String) → Option Problem
unfolding build str
from_status phrases status detail headers =
    let phrase = given (phrases status) "HTTP Error" in
    build generic_http_problem (record unset {
      detail = some (or_default detail phrase);
      status = some status;
      title = some phrase;
      type_slug = some ("http-" ++ str status);
      code = some ("http_" ++ str status);
      headers = headers;
      retryable = some (leb 500 status);
      log_level = some (if ltb status 500 then "warning" else "error");
    })

unfoldable pub problem_for_status :
    (ℕ → Option String) → ℕ → Option String → Option (Dict String) → Option Problem
unfolding from_status build
problem_for_status phrases status detail headers = elim (class_for status_mapping status) [
  | none ↦ from_status phrases status detail headers
  | some c ↦ build c (record unset { detail = detail; headers = headers })
]
