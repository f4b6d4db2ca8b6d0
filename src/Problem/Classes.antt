-- ===== src/Problem/Classes.antt =====
-- pfm/app/core/exceptions.py: the problem classes, with what they inherit from `ProblemException`.
use thryve_financial.Base.{true, false, none, some, [], ◌∷◌}
use thryve_financial.Problem.{
  ProblemClass, retry, reauthenticate, reauthenticate_bank, contact_support,
}

abbrev pub problem_exception : ProblemClass
problem_exception = record {
  status = 500;
  type_slug = "internal-error";
  title = "Internal Server Error";
  code = "internal_error";
  description = "The server encountered an unexpected condition.";
  default_detail = "An unexpected error occurred.";
  retryable_default = false;
  default_user_action = none;
  allowed_user_actions = none ∷ [];
  default_log_level = "error";
  default_headers = [];
}

abbrev pub malformed_request_error : ProblemClass
malformed_request_error = record {
  status = 400;
  type_slug = "malformed-request";
  title = "Malformed Request";
  code = "malformed_request";
  description = "The request body or framing was syntactically invalid.";
  default_detail = "The request body could not be parsed.";
  retryable_default = false;
  default_user_action = none;
  allowed_user_actions = none ∷ [];
  default_log_level = "warning";
  default_headers = [];
}

abbrev pub unsupported_media_type_error : ProblemClass
unsupported_media_type_error = record {
  status = 415;
  type_slug = "unsupported-media-type";
  title = "Unsupported Media Type";
  code = "unsupported_media_type";
  description = "The request content type is not supported by this endpoint.";
  default_detail = "The request content type is not supported.";
  retryable_default = false;
  default_user_action = none;
  allowed_user_actions = none ∷ [];
  default_log_level = "warning";
  default_headers = [];
}

abbrev pub request_validation_problem : ProblemClass
request_validation_problem = record {
  status = 422;
  type_slug = "request-validation";
  title = "Request Validation Failed";
  code = "request_validation_failed";
  description = "The request was well formed but failed schema validation.";
  default_detail = "One or more request fields are invalid.";
  retryable_default = false;
  default_user_action = none;
  allowed_user_actions = none ∷ [];
  default_log_level = "warning";
  default_headers = [];
}

abbrev pub authentication_required_error : ProblemClass
authentication_required_error = record {
  status = 401;
  type_slug = "authentication-required";
  title = "Authentication Required";
  code = "authentication_required";
  description = "Authentication credentials were missing or invalid.";
  default_detail = "Authentication credentials were missing or invalid.";
  retryable_default = false;
  default_user_action = some reauthenticate;
  allowed_user_actions = some reauthenticate ∷ none ∷ [];
  default_log_level = "warning";
  default_headers = ("WWW-Authenticate", "Bearer") ∷ [];
}

abbrev pub invalid_credentials_error : ProblemClass
invalid_credentials_error = record {
  status = 401;
  type_slug = "invalid-credentials";
  title = "Invalid Credentials";
  code = "invalid_credentials";
  description = "The supplied authentication credentials are invalid.";
  default_detail = "The supplied credentials are invalid.";
  retryable_default = false;
  default_user_action = some reauthenticate;
  allowed_user_actions = some reauthenticate ∷ none ∷ [];
  default_log_level = "warning";
  default_headers = [];
}

abbrev pub invalid_verification_code_error : ProblemClass
invalid_verification_code_error = record {
  status = 400;
  type_slug = "invalid-verification-code";
  title = "Invalid Verification Code";
  code = "invalid_verification_code";
  description = "The verification code is invalid or expired.";
  default_detail = "The verification code is invalid or expired.";
  retryable_default = false;
  default_user_action = none;
  allowed_user_actions = none ∷ [];
  default_log_level = "warning";
  default_headers = [];
}

abbrev pub account_not_provisioned_error : ProblemClass
account_not_provisioned_error = record {
  status = 401;
  type_slug = "account-not-provisioned";
  title = "Account Not Provisioned";
  code = "account_not_provisioned";
  description = "The authenticated identity has not been provisioned for this application.";
  default_detail = "The authenticated identity is not provisioned for this application.";
  retryable_default = false;
  default_user_action = some contact_support;
  allowed_user_actions = some contact_support ∷ none ∷ [];
  default_log_level = "warning";
  default_headers = [];
}

abbrev pub permission_denied_error : ProblemClass
permission_denied_error = record {
  status = 403;
  type_slug = "permission-denied";
  title = "Permission Denied";
  code = "permission_denied";
  description = "The authenticated caller is not allowed to perform the action.";
  default_detail = "You are not allowed to perform this action.";
  retryable_default = false;
  default_user_action = none;
  allowed_user_actions = none ∷ [];
  default_log_level = "warning";
  default_headers = [];
}

abbrev pub resource_not_found_error : ProblemClass
resource_not_found_error = record {
  status = 404;
  type_slug = "resource-not-found";
  title = "Resource Not Found";
  code = "resource_not_found";
  description = "The requested resource does not exist.";
  default_detail = "The requested resource was not found.";
  retryable_default = false;
  default_user_action = none;
  allowed_user_actions = none ∷ [];
  default_log_level = "warning";
  default_headers = [];
}

abbrev pub method_not_allowed_problem : ProblemClass
method_not_allowed_problem = record {
  status = 405;
  type_slug = "method-not-allowed";
  title = "Method Not Allowed";
  code = "method_not_allowed";
  description = "The request method is not allowed for this route.";
  default_detail = "The request method is not allowed for this endpoint.";
  retryable_default = false;
  default_user_action = none;
  allowed_user_actions = none ∷ [];
  default_log_level = "warning";
  default_headers = [];
}

abbrev pub conflict_error : ProblemClass
conflict_error = record {
  status = 409;
  type_slug = "conflict";
  title = "Conflict";
  code = "conflict";
  description = "The request could not be completed because of a resource conflict.";
  default_detail = "The request conflicts with the current resource state.";
  retryable_default = false;
  default_user_action = none;
  allowed_user_actions = none ∷ [];
  default_log_level = "warning";
  default_headers = [];
}

abbrev pub idempotency_key_required_error : ProblemClass
idempotency_key_required_error = record {
  status = 428;
  type_slug = "idempotency-key-required";
  title = "Idempotency Key Required";
  code = "idempotency_key_required";
  description = "Mutation requests must include an Idempotency-Key header.";
  default_detail = "This mutation requires an Idempotency-Key header.";
  retryable_default = false;
  default_user_action = none;
  allowed_user_actions = none ∷ [];
  default_log_level = "warning";
  default_headers = [];
}

abbrev pub idempotency_scope_required_error : ProblemClass
idempotency_scope_required_error = record {
  status = 400;
  type_slug = "idempotency-scope-required";
  title = "Idempotency Scope Required";
  code = "idempotency_scope_required";
  description = "Anonymous mutation requests require a validated anonymous ID.";
  default_detail = "Provide a valid X-Anonymous-ID header or authenticate before retrying.";
  retryable_default = false;
  default_user_action = none;
  allowed_user_actions = none ∷ [];
  default_log_level = "warning";
  default_headers = [];
}

abbrev pub idempotency_in_progress_error : ProblemClass
idempotency_in_progress_error = record {
  status = 409;
  type_slug = "idempotency-request-in-progress";
  title = "Request Already In Progress";
  code = "idempotency_request_in_progress";
  description = "A request with the same idempotency key is still being processed.";
  default_detail = "A matching request is still being processed.";
  retryable_default = true;
  default_user_action = some retry;
  allowed_user_actions = some retry ∷ none ∷ [];
  default_log_level = "warning";
  default_headers = ("Retry-After", "1") ∷ [];
}

abbrev pub idempotency_payload_mismatch_error : ProblemClass
idempotency_payload_mismatch_error = record {
  status = 409;
  type_slug = "idempotency-payload-mismatch";
  title = "Idempotency Payload Mismatch";
  code = "idempotency_payload_mismatch";
  description = "The idempotency key was reused with a different request payload.";
  default_detail = "The idempotency key was reused with a different request payload.";
  retryable_default = false;
  default_user_action = none;
  allowed_user_actions = none ∷ [];
  default_log_level = "warning";
  default_headers = [];
}

abbrev pub request_too_large_problem : ProblemClass
request_too_large_problem = record {
  status = 413;
  type_slug = "request-too-large";
  title = "Request Too Large";
  code = "request_too_large";
  description = "The request body exceeded the configured size limit.";
  default_detail = "The request body exceeds the maximum allowed size.";
  retryable_default = false;
  default_user_action = none;
  allowed_user_actions = none ∷ [];
  default_log_level = "warning";
  default_headers = [];
}

abbrev pub rate_limited_error : ProblemClass
rate_limited_error = record {
  status = 429;
  type_slug = "rate-limited";
  title = "Rate Limited";
  code = "rate_limited";
  description = "The caller has exceeded the configured rate limit.";
  default_detail = "Too many requests were made in a short period.";
  retryable_default = true;
  default_user_action = some retry;
  allowed_user_actions = some retry ∷ none ∷ [];
  default_log_level = "warning";
  default_headers = [];
}

abbrev pub request_deadline_exceeded_error : ProblemClass
request_deadline_exceeded_error = record {
  status = 503;
  type_slug = "request-deadline-exceeded";
  title = "Request Deadline Exceeded";
  code = "request_deadline_exceeded";
  description = "The server aborted the request after exceeding its deadline.";
  default_detail = "The request took too long to process.";
  retryable_default = true;
  default_user_action = some retry;
  allowed_user_actions = some retry ∷ none ∷ [];
  default_log_level = "error";
  default_headers = ("Retry-After", "1") ∷ [];
}

abbrev pub dependency_unavailable_error : ProblemClass
dependency_unavailable_error = record {
  status = 503;
  type_slug = "dependency-unavailable";
  title = "Dependency Unavailable";
  code = "dependency_unavailable";
  description = "A required dependency was unavailable.";
  default_detail = "A required upstream dependency is temporarily unavailable.";
  retryable_default = true;
  default_user_action = some retry;
  allowed_user_actions = some retry ∷ none ∷ [];
  default_log_level = "error";
  default_headers = [];
}

abbrev pub upstream_timeout_error : ProblemClass
upstream_timeout_error = record {
  status = 504;
  type_slug = "upstream-timeout";
  title = "Upstream Timeout";
  code = "upstream_timeout";
  description = "An upstream dependency timed out while handling the request.";
  default_detail = "An upstream dependency took too long to respond.";
  retryable_default = true;
  default_user_action = some retry;
  allowed_user_actions = some retry ∷ none ∷ [];
  default_log_level = "error";
  default_headers = ("Retry-After", "1") ∷ [];
}

abbrev pub upstream_service_error : ProblemClass
upstream_service_error = record {
  status = 502;
  type_slug = "upstream-service-error";
  title = "Upstream Service Error";
  code = "upstream_service_error";
  description = "An upstream provider returned an error.";
  default_detail = "An upstream provider could not complete the request.";
  retryable_default = true;
  default_user_action = some retry;
  allowed_user_actions = some retry ∷ none ∷ [];
  default_log_level = "error";
  default_headers = [];
}

abbrev pub external_action_required_error : ProblemClass
external_action_required_error = record {
  status = 409;
  type_slug = "external-action-required";
  title = "External Action Required";
  code = "external_action_required";
  description = "The request requires a user-facing action in an external system.";
  default_detail = "Additional action is required to complete this request.";
  retryable_default = false;
  default_user_action = some contact_support;
  allowed_user_actions = some reauthenticate_bank ∷ some contact_support ∷ none ∷ [];
  default_log_level = "warning";
  default_headers = [];
}

abbrev pub internal_server_problem : ProblemClass
internal_server_problem = record {
  status = 500;
  type_slug = "internal-error";
  title = "Internal Server Error";
  code = "internal_error";
  description = "The server encountered an unexpected condition.";
  default_detail = "An unexpected error occurred.";
  retryable_default = false;
  default_user_action = none;
  allowed_user_actions = none ∷ [];
  default_log_level = "error";
  default_headers = [];
}

abbrev pub generic_http_problem : ProblemClass
generic_http_problem = record {
  status = 500;
  type_slug = "internal-error";
  title = "Internal Server Error";
  code = "internal_error";
  description = "The server encountered an unexpected condition.";
  default_detail = "An unexpected error occurred.";
  retryable_default = false;
  default_user_action = none;
  allowed_user_actions = none ∷ [];
  default_log_level = "error";
  default_headers = [];
}
