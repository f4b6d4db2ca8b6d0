-- ===== src/Middleware/Tests.antt =====
-- An application that reads a body and answers it.
use thryve_financial.Base.{
  parse_int, ◌-◌, ◌≤◌, ◌≡◌, inl, refl, String, true, false, Option, none, some, List, [], ◌∷◌,
  arith,
}
use thryve_financial.Problem.{Problem, unset, built}
use thryve_financial.Problem.Classes.{request_too_large_problem}
use thryve_financial.Middleware.{
  deadline_cancelled, Receipt, message, failed, http_request, http_disconnect, Sent, response_start,
  response_body, RequestContext, Run, returns, raises, receives, sends, reads, Scope, http, respond,
  timed, limited,
}
use thryve_financial.Middleware.Serve.{Turn, returned, serve}
use thryve_financial.Middleware.Stack.{
  RequestLog, event, request_logging, body_size_limit, user_context, is_valid_anonymous_id,
  matches_upto, last_item, logged, clearing,
}
use thryve_financial.Middleware.Deadline.{overdue_answered}
use thryve_financial.Middleware.BodyLimit.{
  Agree, both_receive, both_return, both_raise, body_bytes, body_limit_hides,
}
use thryve_financial.Middleware.Context.{HasNoIdentity, user_context_isolates}

abbrev scope : Scope
scope = record {
  scope_type = http;
  method = "POST";
  path = "/api/v1/transactions";
  headers = ("x-anonymous-id", "guest-7") ∷ [];
  route = none;
}

abbrev context : Option String → RequestContext
context user = record { correlation_id = some "r1"; user_id = user; anonymous_id = none }

abbrev turn : Receipt → Turn
turn r = record { receipt = r; send_error = none }

abbrev done : Turn
done = turn (message http_disconnect)

abbrev answer : List Sent
answer = response_start 503 [] ∷ response_body "late" false ∷ []

-- Waits for a body; an error is raised, and anything else is answered.
abbrev reader : Run
reader = receives (λ r. elim r [
  | failed e ↦ raises e
  | message m ↦ respond (response_start 200 [] ∷ response_body "ok" false ∷ [])
])

overdue_answered_example :
    ((serve
        (timed answer false reader)
        (context none)
        (turn (failed deadline_cancelled) ∷ done ∷ done ∷ [])).sent
      ≡ answer)
    × ((serve
          (timed answer false reader)
          (context none)
          (turn (failed deadline_cancelled) ∷ done ∷ done ∷ [])).ending
        ≡ returned)
unfolding serve
overdue_answered_example =
    overdue_answered answer reader (context none)
      (turn (failed deadline_cancelled) ∷ done ∷ done ∷ []) refl refl (omega arith) refl

abbrev log : RequestLog
log = record {
  enabled = true;
  log_healthcheck_requests = false;
  log_options_requests = false;
  healthcheck_paths = "/api/v1/health" ∷ [];
}

abbrev same : String → String
same s = s

-- The one event has the status of the answer.
answered_event :
    (serve (request_logging same log scope reader) (context none) (done ∷ done ∷ done ∷ [])).events
    ≡ (event scope 200 ∷ [])
unfolding serve request_logging logged respond
answered_event = refl

abbrev refusal : Problem
refusal = built request_too_large_problem unset

-- Ends differently when the body is longer than two bytes.
abbrev read_bytes : Run → Receipt → Run
read_bytes long (failed e) = raises e
read_bytes long (message http_disconnect) = returns
read_bytes long (message (http_request [] more)) = returns
read_bytes long (message (http_request (b ∷ []) more)) = returns
read_bytes long (message (http_request (b ∷ c ∷ []) more)) = returns
read_bytes long (message (http_request (b ∷ c ∷ d ∷ rest) more)) = long

read_bytes-Agree :
    (a b : Run) (r : Receipt)
    → body_bytes r ≤ 2
    → Agree (2 - body_bytes r) (read_bytes a r) (read_bytes b r)
read_bytes-Agree a b (failed e) few = both_raise e
read_bytes-Agree a b (message http_disconnect) few = both_return
read_bytes-Agree a b (message (http_request [] more)) few = both_return
read_bytes-Agree a b (message (http_request (x ∷ []) more)) few = both_return
read_bytes-Agree a b (message (http_request (x ∷ y ∷ []) more)) few = both_return
read_bytes-Agree a b (message (http_request (x ∷ y ∷ z ∷ rest) more)) few =
    absurd (omega (arith, few))

abbrev counter : Run → Run
counter long = receives (read_bytes long)

body_limit_hides_example :
    body_size_limit 2 refusal answer scope (counter returns)
    ≡ body_size_limit 2 refusal answer scope (counter (raises deadline_cancelled))
body_limit_hides_example =
    body_limit_hides 2 refusal answer scope (counter returns) (counter (raises deadline_cancelled))
      refl (inl (both_receive (read_bytes-Agree returns (raises deadline_cancelled))))

-- The third byte is refused.
third_byte_refused :
    (serve
      (body_size_limit 2 refusal answer scope reader)
      (context none)
      (turn (message (http_request (1 ∷ 2 ∷ 3 ∷ []) false)) ∷ done ∷ done ∷ [])).sent
    ≡ answer
unfolding serve body_size_limit limited respond last_item
third_byte_refused = refl

user_context_isolates_example :
    (serve (user_context scope reader) (context (some "u1")) (done ∷ done ∷ done ∷ [])
      ≡ serve (user_context scope reader) (context none) (done ∷ done ∷ done ∷ []))
    × HasNoIdentity
        (serve (user_context scope reader) (context (some "u1")) (done ∷ done ∷ done ∷ []))
user_context_isolates_example =
    user_context_isolates scope reader (context (some "u1")) (context none)
      (done ∷ done ∷ done ∷ []) (λ e. ground arith) refl

-- The identity of the header is that of the request.
identity_read :
    (serve
      (user_context scope (reads (λ c. sends (response_body "" true) (λ e. returns))))
      (context none)
      []).context.anonymous_id
    ≡ some "guest-7"
unfolding serve user_context clearing is_valid_anonymous_id matches_upto
identity_read = refl

too_long : parse_int " -1_0 " ≡ some (record { negative = true; magnitude = 10 })
unfolding parse_int
too_long = refl
