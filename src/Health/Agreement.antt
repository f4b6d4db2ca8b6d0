-- ===== src/Health/Agreement.antt =====
-- The two routes agree.
use thryve_financial.Base.{
  ◌≡◌, refl, String, Bool, true, false, not, ◌&&◌, Option, none, some, List, [], ◌∷◌, ◌++◌, map,
  arith, Bool-cases, if◌then◌else◌,
}
use thryve_financial.Problem.{ProblemFieldError}
use thryve_financial.Redis.Store.{Session}
use thryve_financial.Health.{
  HealthVisit, HealthResponse, HealthChecks, HealthStatus, healthy, unhealthy, is_healthy,
  ReadinessAnswer, ready, not_ready, readiness, settle, redis_answers, build_health_response,
}

abbrev pub is_ready : ReadinessAnswer → Bool
is_ready (ready dependencies) = true
is_ready (not_ready problem) = false

-- The fields of a problem's errors, where there are any.
abbrev pub fields : Option (List ProblemFieldError) → List (Option String)
fields none = []
fields (some errors) = map (λ (e : ProblemFieldError). e.field) errors

abbrev pub reported : ReadinessAnswer → List (Option String)
reported (ready dependencies) = []
reported (not_ready none) = []
reported (not_ready (some problem)) = fields problem.errors

abbrev named : String → HealthStatus → List (Option String)
named name healthy = []
named name unhealthy = some name ∷ []

-- The dependencies, but Celery, that a snapshot reports as unhealthy.
abbrev pub unhealthy_names : HealthChecks → List (Option String)
unhealthy_names c =
    named "database" c.database.status ++ named "redis" c.redis.status ++ named "auth" c.auth.status

abbrev unmet : String → Bool → List (Option String)
unmet name answers = named name (if answers then healthy else unhealthy)

settle_lem :
    (database redis auth : Bool)
    → (is_ready (settle database redis auth) ≡ (database && redis && auth))
      × (reported (settle database redis auth)
          ≡ unmet "database" database ++ unmet "redis" redis ++ unmet "auth" auth)
unfolding settle
settle_lem true true true = (refl, refl)
settle_lem true true false = (refl, refl)
settle_lem true false true = (refl, refl)
settle_lem true false false = (refl, refl)
settle_lem false true true = (refl, refl)
settle_lem false true false = (refl, refl)
settle_lem false false true = (refl, refl)
settle_lem false false false = (refl, refl)

-- At an application that is not shutting down and has a Redis service, the readiness check
-- succeeds exactly if the database, Redis and the authentication are healthy in the snapshot that
-- meets the same, and else its problem names those that are not, in that order. A snapshot that
-- is healthy as a whole is ready.
pub readiness_agrees :
    (v : HealthVisit) (s : Session) (h : HealthResponse)
    → v.shutting_down ≡ false
    → v.redis ≡ some s
    → build_health_response v ≡ some h
    → (is_ready (readiness v) ≡ (
        is_healthy h.checks.database.status
        && is_healthy h.checks.redis.status
        && is_healthy h.checks.auth.status))
      × (reported (readiness v) ≡ unhealthy_names h.checks)
      × ((is_healthy h.status && not (is_ready (readiness v))) ≡ false)
unfolding readiness build_health_response
readiness_agrees v s h up there met = ground (
  arith,
  up,
  there,
  met,
  Bool-cases v.database_answers,
  Bool-cases v.auth_is_valid,
  Bool-cases (redis_answers v),
  settle_lem v.database_answers (redis_answers v) v.auth_is_valid,
)
