-- ===== src/Problem/Response.antt =====
-- pfm/app/core/problems.py: a problem as an HTTP response. `urljoin` is the parameter `join`; the
-- values read of a Starlette request are the fields of `Request`.
use Prim.Native.Char.{code}
use Prim.Native.String.{◌++◌}
use thryve_financial.Base.{
  ℕ, String, Bool, Option, none, some, List, [], ◌∷◌, ◌==◌, Dict, item, set_item, eqb,
  if◌then◌else◌,
}
use thryve_financial.Problem.{
  ProblemFieldError, ProblemUpstream, ProblemDefinition, UserAction, Problem, update,
}
use thryve_financial.Problem.Registry.{problem_definitions}

-- What the module reads of the settings.
pub record Settings : Type 0 where
  pub is_development : Bool
  pub public_base_url : String

-- A request: its URLs, and the value of its idempotency header.
pub record Request : Type 0 where
  pub base_url : String
  pub url : String
  pub idempotency_key : Option String

pub record ProblemResponse : Type 0 where
  pub type_url : String
  pub title : String
  pub status : ℕ
  pub detail : String
  pub instance_url : String
  pub code : String
  pub request_id : Option String
  pub retryable : Bool
  pub errors : Option (List ProblemFieldError)
  pub upstream : Option ProblemUpstream
  pub user_action : Option UserAction

-- `JSONResponse`
pub record JsonResponse : Type 0 where
  pub status_code : ℕ
  pub content : ProblemResponse
  pub headers : Dict String

pub record ProblemDefinitionResponse : Type 0 where
  pub type_url : String
  pub title : String
  pub status : ℕ
  pub code : String
  pub description : String
  pub default_detail : String
  pub retryable : Bool
  pub user_action : Option UserAction

-- `s.rstrip("/")`
unfoldable pub without_slashes : String → String
without_slashes String.[] = ""
without_slashes (String.◌∷◌ c s) = elim (without_slashes s) [
  | String.[] ↦ if eqb (code c) 47 then "" else String.◌∷◌ c String.[]
  | String.◌∷◌ d rest ↦ String.◌∷◌ c (String.◌∷◌ d rest)
]

-- `_normalized_base_url`
unfoldable pub normalized_base_url : Settings → Request → String
unfolding without_slashes
normalized_base_url settings request =
    let own = without_slashes request.base_url in
    let configured = without_slashes settings.public_base_url in
    if settings.is_development then own else if configured == "" then own else configured

-- What a response is made from, besides the problem: `urljoin`, the settings, the request and the
-- correlation id.
pub record Surroundings : Type 0 where
  pub join : String → String → String
  pub settings : Settings
  pub request : Request
  pub correlation_id : Option String

unfoldable pub problem_type_url : Surroundings → String → String
unfolding normalized_base_url
problem_type_url s type_slug =
    s.join (normalized_base_url s.settings s.request ++ "/") ("problems/" ++ type_slug)

unfoldable pub problem_instance_url : Surroundings → Option String → String
unfolding normalized_base_url
problem_instance_url s none = s.request.url
problem_instance_url s (some request_id) =
    if request_id == ""
    then s.request.url
    else s.join (normalized_base_url s.settings s.request ++ "/") ("requests/" ++ request_id)

unfoldable pub build_problem_document : Surroundings → Problem → ProblemResponse
unfolding problem_type_url problem_instance_url
build_problem_document s p = record {
  type_url = problem_type_url s p.type_slug;
  title = p.title;
  status = p.status;
  detail = p.detail;
  instance_url = problem_instance_url s s.correlation_id;
  code = p.code;
  request_id = s.correlation_id;
  retryable = p.retryable;
  errors = p.errors;
  upstream = p.upstream;
  user_action = p.user_action;
}

unfoldable pub problem_headers : Problem → Dict String
unfolding update set_item
problem_headers p = update (("Content-Type", "application/problem+json") ∷ []) p.headers

-- The idempotency key of the request, echoed.
abbrev pub with_request_key : Option String → Dict String → Dict String
with_request_key none headers = headers
with_request_key (some key) headers =
    if key == "" then headers else set_item headers "Idempotency-Key" key

abbrev pub with_status : String → Dict String → Dict String
with_status code headers =
    if code == "idempotency_request_in_progress"
    then set_item headers "Idempotency-Status" "in_progress"
    else headers

unfoldable pub problem_response : Surroundings → Problem → JsonResponse
unfolding build_problem_document problem_headers set_item
problem_response s p = record {
  status_code = p.status;
  content = build_problem_document s p;
  headers = with_status p.code (with_request_key s.request.idempotency_key (problem_headers p));
}

-- The payload of a definition that is registered.
abbrev pub definition_payload :
    Surroundings → Option ProblemDefinition → Option ProblemDefinitionResponse
definition_payload s none = none
definition_payload s (some d) = some (record {
  type_url = problem_type_url s d.type_slug;
  title = d.title;
  status = d.status;
  code = d.code;
  description = d.description;
  default_detail = d.default_detail;
  retryable = d.retryable;
  user_action = d.user_action;
})

unfoldable pub problem_definition_payload : Surroundings → String → Option ProblemDefinitionResponse
unfolding problem_definitions item
problem_definition_payload s type_slug = definition_payload s (item problem_definitions type_slug)
