-- ===== src/Clients.antt =====
-- pfm/app/clients/base.py: a request to an external service, with its retries. The transport is
-- the function `answer`, which gives what each attempt gets; the backoff factor is a whole number
-- of seconds. Log lines, metrics and the headers of the request are left out.
pub mod Retries
pub mod Translation
mod Tests
use thryve_financial.Base.{
  ℕ, zero, suc, ◌+◌, ◌*◌, ◌^◌, String, Bool, true, false, Option, none, some, List, [], ◌∷◌, leb,
  ltb, ◌&&◌, ◌==◌, or_text, if◌then◌else◌,
}
use thryve_financial.Problem.{Problem, ProblemUpstream}
use thryve_financial.Problem.Factories.{
  provider_unavailable, bank_reauthentication_required, support_required, upstream_timeout,
  dependency_unavailable,
}

-- The provider's error payload, where it is a JSON object: the fields that are read, as texts.
pub record ErrorPayload : Type 0 where
  pub request_id : Option String
  pub error_code : Option String
  pub code : Option String
  pub type_name : Option String

-- A response: its status, the two headers that are read, and its payload.
pub record Response : Type 0 where
  pub status_code : ℕ
  pub request_id_header : Option String
  pub x_request_id_header : Option String
  pub payload : Option ErrorPayload

-- What an attempt gets: a response, a timeout, or another error of the transport.
pub data Answer : Type 0 where
  answered : Response → Answer
  timed_out transport_failed : Answer

-- What the caller gets; the problem is as its factory builds it.
pub data Outcome : Type 0 where
  returned : Response → Outcome
  raised : Option Problem → Outcome

pub record BaseClient : Type 0 where
  pub service_name : String
  pub max_retries : ℕ
  pub backoff_factor : ℕ

-- The outcome, and the seconds slept between the attempts.
pub record Exchange : Type 0 where
  pub outcome : Outcome
  pub waits : List ℕ

-- `(payload or {}).get(…)`
abbrev pub payload_field : (ErrorPayload → Option String) → Option ErrorPayload → Option String
payload_field field none = none
payload_field field (some p) = field p

-- `_upstream_metadata`
abbrev pub upstream_metadata : BaseClient → Response → ProblemUpstream
upstream_metadata c r = record {
  provider = c.service_name;
  provider_code =
      or_text
        (or_text (payload_field (λ p. p.error_code) r.payload)
          (payload_field (λ p. p.code) r.payload))
        (payload_field (λ p. p.type_name) r.payload);
  provider_request_id =
      or_text (or_text r.request_id_header r.x_request_id_header)
        (payload_field (λ p. p.request_id) r.payload);
}

abbrev pub own_upstream : BaseClient → ProblemUpstream
own_upstream c = record {
  provider = c.service_name;
  provider_code = none;
  provider_request_id = none;
}

module _ (capitalize : String → String) (c : BaseClient) where
  -- `_response_problem`
  unfoldable pub response_problem : Response → Option Problem
  unfolding provider_unavailable bank_reauthentication_required support_required
  response_problem r =
      if leb 500 r.status_code
      then provider_unavailable capitalize c.service_name (upstream_metadata c r) none none
      else if c.service_name == "plaid"
      then bank_reauthentication_required capitalize c.service_name (upstream_metadata c r) none
          false
      else support_required capitalize c.service_name (upstream_metadata c r) none false

  -- What an attempt that is not retried ends in.
  unfoldable pub settled : Answer → Outcome
  unfolding response_problem upstream_timeout dependency_unavailable
  settled (answered r) = if leb 400 r.status_code then raised (response_problem r) else returned r
  settled timed_out =
      raised (upstream_timeout capitalize c.service_name (some (own_upstream c)) none 1)
  settled transport_failed =
      raised
        (dependency_unavailable capitalize c.service_name (some (own_upstream c)) none none none)

  -- The problem after the loop.
  unfoldable pub exhausted : Outcome
  unfolding dependency_unavailable
  exhausted = raised (
      dependency_unavailable capitalize c.service_name (some (own_upstream c)) none none
        (some (("last_exception_type", "unknown") ∷ [])))

  -- A server error, a timeout and a transport error are tried again.
  abbrev pub is_retryable : Answer → Bool
  is_retryable (answered r) = leb 500 r.status_code
  is_retryable timed_out = true
  is_retryable transport_failed = true

  -- The loop over `range(max_retries + 1)`: the attempts left, and the number of the next.
  unfoldable pub attempts : (ℕ → Answer) → ℕ → ℕ → Exchange
  attempts answer zero attempt = record { outcome = exhausted; waits = [] }
  attempts answer (suc left) attempt =
      let later = attempts answer left (suc attempt) in
      if is_retryable (answer attempt) && ltb attempt c.max_retries
      then record later { waits = c.backoff_factor * 2 ^ attempt ∷ later.waits }
      else record { outcome = settled (answer attempt); waits = [] }

  unfoldable pub request : (ℕ → Answer) → Exchange
  unfolding attempts
  request answer = attempts answer (suc c.max_retries) 0
