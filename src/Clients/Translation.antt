-- ===== src/Clients/Translation.antt =====
-- What a request that is given up raises.
use thryve_financial.Base.{ℕ, ◌<◌, ◌≡◌, String, some, leb, if◌then◌else◌}
use thryve_financial.Problem.{Problem}
use thryve_financial.Clients.{
  BaseClient, Answer, answered, timed_out, transport_failed, Outcome, returned, raised,
  is_retryable,
}

-- The status of the problem that an answer ends in.
abbrev pub problem_status : Answer → ℕ
problem_status (answered r) = if leb 500 r.status_code then 503 else 409
problem_status timed_out = 504
problem_status transport_failed = 503

module _ (capitalize : String → String) (c : BaseClient) where
  -- A response below 400 is returned as it is; anything else raises a problem with its status,
  -- which says that a retry may help where the answer was one to try again.
  abbrev pub Translates : Answer → Outcome → Type 0
  Translates a (returned r) = (a ≡ answered r) × (r.status_code < 400)
  Translates a (raised o) =
      (p : Problem) × (o ≡ some p)
      × (p.status ≡ problem_status a)
      × (p.retryable ≡ is_retryable capitalize c a)
