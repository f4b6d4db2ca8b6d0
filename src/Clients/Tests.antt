-- ===== src/Clients/Tests.antt =====
-- A provider that fails twice and then answers.
use thryve_financial.Base.{ℕ, ◌≡◌, refl, String, none, [], ◌∷◌, eqb, if◌then◌else◌}
use thryve_financial.Clients.{
  BaseClient, Answer, Response, answered, timed_out, returned, settled, request, attempts,
}

abbrev same : String → String
same s = s

abbrev client : BaseClient
client = record { service_name = "plaid"; max_retries = 3; backoff_factor = 1 }

abbrev response : ℕ → Response
response status = record {
  status_code = status;
  request_id_header = none;
  x_request_id_header = none;
  payload = none;
}

abbrev answer : ℕ → Answer
answer n =
    if eqb n 0
    then timed_out
    else if eqb n 1
    then answered (response 502)
    else answered (response 200)

third_attempt :
    request same client answer ≡ record { outcome = returned (response 200); waits = 1 ∷ 2 ∷ [] }
unfolding request attempts settled
third_attempt = refl
