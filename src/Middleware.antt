-- ===== src/Middleware.antt =====
-- pfm/app/middleware: an ASGI application as a tree of what it does at each `await`, and the
-- middleware of the service as functions of such trees. What the program waits for is answered by
-- a `Turn`. Starlette's response, its header list and Python's `int` on a header are those of Problem
-- or parameters; the duration of a request and the warnings are left out.
pub mod Stack
pub mod Serve
pub mod Deadline
pub mod Events
pub mod BodyLimit
pub mod Context
mod Tests
use thryve_financial.Base.{
  ℕ, ◌+◌, String, Bool, true, false, not, ◌&&◌, Option, none, some, List, [], ◌∷◌, ◌==◌, ltb,
  length, if◌then◌else◌, truthy, elem,
}
use thryve_financial.Problem.{Problem}

-- The exceptions that the middleware tell apart. A `CancelledError` comes from the deadline of the
-- request or from outside.
pub data Raised : Type 0 where
  too_large : Problem → Raised
  problem : Problem → Raised
  timeout_error deadline_cancelled cancelled : Raised
  other_exception : String → Raised

-- `except Exception` catches all but the cancellations.
abbrev pub is_exception : Raised → Bool
is_exception deadline_cancelled = false
is_exception cancelled = false
is_exception (too_large p) = true
is_exception (problem p) = true
is_exception timeout_error = true
is_exception (other_exception s) = true

-- A message from the server; a body is a list of bytes.
pub data Received : Type 0 where
  http_request : List ℕ → Bool → Received
  http_disconnect : Received

-- What an `await receive()` gets.
pub data Receipt : Type 0 where
  message : Received → Receipt
  failed : Raised → Receipt

-- Headers in the order in which they are sent.
abbrev pub RawHeaders : Type 0
RawHeaders = List (String × String)

-- A message to the server: `more_body` is the flag of a part of the body.
pub data Sent : Type 0 where
  response_start : ℕ → RawHeaders → Sent
  response_body : String → Bool → Sent
  other_message : String → Sent

-- The context variables of core/context.py.
pub record RequestContext : Type 0 where
  pub correlation_id : Option String
  pub user_id : Option String
  pub anonymous_id : Option String

-- A completion event of the request log.
pub record CompletionEvent : Type 0 where
  pub method : String
  pub path : String
  pub status_code : ℕ
  pub route : Option String

-- An application that is being run, by its next step.
pub data Run : Type 0 where
  returns : Run
  raises : Raised → Run
  receives : (Receipt → Run) → Run
  sends : Sent → (Option Raised → Run) → Run
  reads : (RequestContext → Run) → Run
  writes : RequestContext → Run → Run
  logs : CompletionEvent → Run → Run

-- The type of a scope.
pub data ScopeType : Type 0 where
  http websocket lifespan : ScopeType

-- A scope, its headers by lower-case name, and the route that the router finds.
pub record Scope : Type 0 where
  pub scope_type : ScopeType
  pub method : String
  pub path : String
  pub headers : RawHeaders
  pub route : Option String

abbrev pub is_http : Scope → Bool
is_http s = elim s.scope_type [ http ↦ true | websocket ↦ false | lifespan ↦ false ]

-- `await response(scope, receive, send)`: the messages of a response, one after the other.
unfoldable pub respond : List Sent → Run
respond [] = returns
respond (m ∷ ms) =
    let rest = respond ms in sends m (λ e. elim e [ none ↦ rest | some r ↦ raises r ])

-- RequestTimeoutMiddleware: the run that `wait_for` watches. `started` is `response_started`, and
-- `answer` what the problem response sends.
unfoldable pub timed : List Sent → Bool → Run → Run
unfolding respond
timed answer started returns = returns
timed answer started (raises r) = elim r [
  | deadline_cancelled ↦ if started then raises timeout_error else respond answer
  | timeout_error ↦ if started then raises timeout_error else respond answer
  | cancelled ↦ raises cancelled
  | too_large p ↦ raises (too_large p)
  | problem p ↦ raises (problem p)
  | other_exception s ↦ raises (other_exception s)
]
timed answer started (receives k) = receives (λ r. timed answer started (k r))
timed answer started (sends (response_start status headers) k) =
    sends (response_start status headers) (λ e. timed answer true (k e))
timed answer started (sends (response_body b more) k) =
    sends (response_body b more) (λ e. timed answer started (k e))
timed answer started (sends (other_message s) k) =
    sends (other_message s) (λ e. timed answer started (k e))
timed answer started (reads k) = reads (λ c. timed answer started (k c))
timed answer started (writes c k) = writes c (timed answer started k)
timed answer started (logs e k) = logs e (timed answer started k)

-- BodySizeLimitMiddleware: the run with `limited_receive`, which has counted `total` bytes;
-- `refusal` is the exception that it raises.
unfoldable pub limited : ℕ → Problem → List Sent → ℕ → Run → Run
unfolding respond
limited max_size refusal answer total returns = returns
limited max_size refusal answer total (raises r) = elim r [
  | too_large p ↦ respond answer
  | problem p ↦ raises (problem p)
  | timeout_error ↦ raises timeout_error
  | deadline_cancelled ↦ raises deadline_cancelled
  | cancelled ↦ raises cancelled
  | other_exception s ↦ raises (other_exception s)
]
limited max_size refusal answer total (receives k) = receives (λ r. elim r [
  | failed e ↦ limited max_size refusal answer total (k (failed e))
  | message http_disconnect ↦ limited max_size refusal answer total (k (message http_disconnect))
  | message (http_request body more) ↦
      if ltb max_size (total + length body)
      then limited max_size refusal answer (total + length body) (k (failed (too_large refusal)))
      else limited max_size refusal answer (total + length body)
          (k (message (http_request body more)))
])
limited max_size refusal answer total (sends m k) =
    sends m (λ e. limited max_size refusal answer total (k e))
limited max_size refusal answer total (reads k) =
    reads (λ c. limited max_size refusal answer total (k c))
limited max_size refusal answer total (writes c k) =
    writes c (limited max_size refusal answer total k)
limited max_size refusal answer total (logs e k) = logs e (limited max_size refusal answer total k)

-- SecurityHeadersMiddleware: the headers that are appended.
abbrev pub security_headers : Bool → RawHeaders
security_headers is_production =
    ("x-content-type-options", "nosniff")
    ∷ ("x-frame-options", "DENY")
    ∷ (if is_production
        then ("strict-transport-security", "max-age=31536000; includeSubDomains") ∷ []
        else [])
