-- ===== src/Middleware/Stack.antt =====
-- pfm/app/middleware and core/security.py: the middleware that read and write the request's context,
-- headers and log, the middleware as they are called with a scope, and their order in `create_app`.
-- The headers of Starlette and the package `asgi_correlation_id` are parameters.
use Prim.Native.Char.{code}
use thryve_financial.Base.{
  Integer, parse_int, exceeds, ℕ, zero, suc, String, Bool, true, false, not, ◌&&◌, ◌||◌, Option,
  none, some, List, [], ◌∷◌, ◌++◌, ◌==◌, leb, eqb, item, elem, if◌then◌else◌,
}
use thryve_financial.Problem.{Problem}
use thryve_financial.Middleware.{
  Run, returns, raises, receives, sends, reads, writes, logs, Sent, response_start, response_body,
  other_message, RawHeaders, RequestContext, CompletionEvent, Scope, ScopeType, http, websocket,
  lifespan, is_http, is_exception, respond, timed, limited, security_headers,
}

abbrev in_range : ℕ → ℕ → ℕ → Bool
in_range low high c = leb low c && leb c high

abbrev is_letter_or_digit : ℕ → Bool
is_letter_or_digit c = in_range 48 57 c || in_range 65 90 c || in_range 97 122 c

-- A character of `[A-Za-z0-9._:-]`.
abbrev pub is_anonymous_id_character : ℕ → Bool
is_anonymous_id_character c = is_letter_or_digit c || eqb c 46 || eqb c 95 || eqb c 58 || eqb c 45

-- A character of `[a-zA-Z0-9\-]`.
abbrev pub is_request_id_character : ℕ → Bool
is_request_id_character c = is_letter_or_digit c || eqb c 45

-- All characters are of the class, and there are at most `n`.
unfoldable pub matches_upto : (ℕ → Bool) → ℕ → String → Bool
matches_upto p n String.[] = true
matches_upto p zero (String.◌∷◌ c s) = false
matches_upto p (suc n) (String.◌∷◌ c s) = p (code c) && matches_upto p n s

-- `_ANONYMOUS_ID_PATTERN.fullmatch`
unfoldable pub is_valid_anonymous_id : String → Bool
unfolding matches_upto
is_valid_anonymous_id s = not (s == "") && matches_upto is_anonymous_id_character 128 s

unfoldable pub is_valid_request_id : String → Bool
unfolding matches_upto
is_valid_request_id s = not (s == "") && matches_upto is_request_id_character 128 s

-- UserContextMiddleware: `clear_current_anonymous_id` and `clear_current_user_id`.
abbrev pub cleared : RequestContext → RequestContext
cleared c = record c { user_id = none; anonymous_id = none }

-- The run, with the identities cleared when it ends.
unfoldable pub clearing : Run → Run
clearing returns = reads (λ c. writes (cleared c) returns)
clearing (raises r) = reads (λ c. writes (cleared c) (raises r))
clearing (receives k) = receives (λ r. clearing (k r))
clearing (sends m k) = sends m (λ e. clearing (k e))
clearing (reads k) = reads (λ c. clearing (k c))
clearing (writes c k) = writes c (clearing k)
clearing (logs e k) = logs e (clearing k)

-- The identity of the header, where it is one.
abbrev pub anonymous_id_of : Option String → Option String
anonymous_id_of none = none
anonymous_id_of (some s) = if is_valid_anonymous_id s then some s else none

-- The run between the clearing before it and the one after it.
abbrev pub identified : Option String → Run → Run
identified header app =
    reads
      (λ c. writes (record (cleared c) { anonymous_id = anonymous_id_of header }) (clearing app))

-- The run of a scope of the type.
abbrev pub run_of_type : ScopeType → Option String → Run → Run
run_of_type lifespan header app = app
run_of_type http header app = identified header app
run_of_type websocket header app = identified header app

unfoldable pub user_context : Scope → Run → Run
unfolding clearing is_valid_anonymous_id item
user_context scope app = run_of_type scope.scope_type (item scope.headers "x-anonymous-id") app

-- RequestLoggingMiddleware: its settings.
pub record RequestLog : Type 0 where
  pub enabled : Bool
  pub log_healthcheck_requests : Bool
  pub log_options_requests : Bool
  pub healthcheck_paths : List String

-- `_should_skip`, where `upper` is `str.upper`.
abbrev pub should_skip : (String → String) → RequestLog → Scope → Bool
should_skip upper log scope =
    not log.enabled
    || (upper scope.method == "OPTIONS" && not log.log_options_requests)
    || (elem scope.path log.healthcheck_paths && not log.log_healthcheck_requests)

-- `_emit`
abbrev pub event : Scope → ℕ → CompletionEvent
event scope status_code = record {
  method = scope.method;
  path = scope.path;
  status_code = status_code;
  route = scope.route;
}

-- The run with `send_with_logging`, whose variables are `status_code` and `completed`.
unfoldable pub logged : Scope → ℕ → Bool → Run → Run
logged scope status completed returns = returns
logged scope status completed (raises r) =
    if is_exception r && not completed then logs (event scope status) (raises r) else raises r
logged scope status completed (receives k) = receives (λ r. logged scope status completed (k r))
logged scope status completed (sends (response_start code headers) k) =
    sends (response_start code headers) (λ e. logged scope code completed (k e))
logged scope status completed (sends (response_body b more) k) =
    if not more && not completed
    then logs (event scope status)
        (sends (response_body b more) (λ e. logged scope status true (k e)))
    else sends (response_body b more) (λ e. logged scope status completed (k e))
logged scope status completed (sends (other_message s) k) =
    sends (other_message s) (λ e. logged scope status completed (k e))
logged scope status completed (reads k) = reads (λ c. logged scope status completed (k c))
logged scope status completed (writes c k) = writes c (logged scope status completed k)
logged scope status completed (logs e k) = logs e (logged scope status completed k)

unfoldable pub request_logging : (String → String) → RequestLog → Scope → Run → Run
unfolding logged
request_logging upper log scope app =
    if not (is_http scope) || should_skip upper log scope then app else logged scope 500 false app

-- The run with the headers of each response start changed, by the context of that moment.
unfoldable pub with_headers : (RequestContext → RawHeaders → RawHeaders) → Run → Run
with_headers change returns = returns
with_headers change (raises r) = raises r
with_headers change (receives k) = receives (λ r. with_headers change (k r))
with_headers change (sends (response_start code headers) k) =
    reads (λ c. sends (response_start code (change c headers)) (λ e. with_headers change (k e)))
with_headers change (sends (response_body b more) k) =
    sends (response_body b more) (λ e. with_headers change (k e))
with_headers change (sends (other_message s) k) =
    sends (other_message s) (λ e. with_headers change (k e))
with_headers change (reads k) = reads (λ c. with_headers change (k c))
with_headers change (writes c k) = writes c (with_headers change k)
with_headers change (logs e k) = logs e (with_headers change k)

-- SecurityHeadersMiddleware
unfoldable pub security : Bool → Scope → Run → Run
unfolding with_headers
security is_production scope app =
    if is_http scope
    then with_headers (λ c headers. headers ++ security_headers is_production) app
    else app

-- Starlette's `MutableHeaders`: `name in headers`, `del headers[name]`, `headers[name] = value`.
pub record MutableHeaders : Type 0 where
  pub has : String → RawHeaders → Bool
  pub remove : String → RawHeaders → RawHeaders
  pub put : String → String → RawHeaders → RawHeaders

-- The request id replaces the header of its name.
abbrev pub with_request_id : MutableHeaders → String → RequestContext → RawHeaders → RawHeaders
with_request_id ops name c headers = elim c.correlation_id [
  | none ↦ headers
  | some id ↦
      if id == ""
      then headers
      else ops.put name id (if ops.has name headers then ops.remove name headers else headers)
]

-- ResponseRequestIdMiddleware
unfoldable pub response_request_id : MutableHeaders → String → Scope → Run → Run
unfolding with_headers
response_request_id ops name scope app =
    if is_http scope then with_headers (with_request_id ops name) app else app

-- RequestTimeoutMiddleware
unfoldable pub request_timeout : List Sent → Scope → Run → Run
unfolding timed
request_timeout answer scope app = if is_http scope then timed answer false app else app

-- The value of the last header with the name, which the comprehension keeps.
unfoldable pub last_item : String → RawHeaders → Option String
last_item name [] = none
last_item name ((key, value) ∷ rest) = elim (last_item name rest) [
  | some v ↦ some v
  | none ↦ if key == name then some value else none
]

-- An integer, or none, over the limit.
abbrev pub is_over : ℕ → Option Integer → Bool
is_over max_size none = false
is_over max_size (some i) = exceeds i max_size

-- A content length that is an integer over the limit.
abbrev pub announces_more : ℕ → Option String → Bool
announces_more max_size none = false
announces_more max_size (some s) = is_over max_size (parse_int s)

-- BodySizeLimitMiddleware
unfoldable pub body_size_limit : ℕ → Problem → List Sent → Scope → Run → Run
unfolding limited respond last_item parse_int
body_size_limit max_size refusal answer scope app =
    if is_http scope
    then if announces_more max_size (last_item "content-length" scope.headers)
      then respond answer
      else limited max_size refusal answer 0 app
    else app

-- What `create_app` sets: the packages, the settings, and the answers of the two problems.
pub record Wiring : Type 0 where
  pub headers : MutableHeaders
  pub correlation : Scope → Run → Run
  pub upper : String → String
  pub log : RequestLog
  pub is_production : Bool
  pub max_body_size : ℕ
  pub too_large_problem : Problem
  pub too_large_answer : List Sent
  pub deadline_answer : List Sent

-- The middleware of `create_app`, the last added outermost, inside the header of the request id.
unfoldable pub wrapped : Wiring → Scope → Run → Run
unfolding response_request_id user_context request_logging security body_size_limit request_timeout
wrapped w scope app = response_request_id w.headers "X-Request-ID" scope (
    w.correlation scope (
      user_context scope (
        request_logging w.upper w.log scope (
          security w.is_production scope (
            body_size_limit w.max_body_size w.too_large_problem w.too_large_answer scope
              (request_timeout w.deadline_answer scope app))))))
