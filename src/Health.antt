-- ===== src/Health.antt =====
-- pfm/app/api/health.py: the health snapshot and the readiness check, over the Redis service. The
-- database, the configuration of the authentication and the Celery inspector are met as answers; the
-- checks that run together are taken in their order.
mod Schemas
pub mod Agreement
mod Tests
pub use Schemas.*
use Prim.Native.String.{◌++◌}
use thryve_financial.Base.{
  ℕ, ◌+◌, ◌-◌, String, Bool, true, false, not, ◌&&◌, Option, none, some, List, [], ◌∷◌, map, Dict,
  set_item, str, eqb, ltb, ◌==◌, if◌then◌else◌,
}
use thryve_financial.Problem.{ProblemFieldError, Problem, unset, build, unknown}
use thryve_financial.Problem.Classes.{dependency_unavailable_error}
use thryve_financial.Redis.{World, Network, Result, ok, err, require_client}
use thryve_financial.Redis.Store.{
  ProbeEvents, RedisReply, Session, replied, raises, round_trip, with_client,
}

-- Celery: the count of the workers that answer, if the inspection does in time, the names of the
-- task queues, the priority steps and the separator of kombu, and the lengths of the lists in
-- Redis that answer; a client is asked for over `network`.
pub record CeleryVisit : Type 0 where
  pub worker_count : Option ℕ
  pub queue_names : List String
  pub priority_steps : List ℕ
  pub sep : String
  pub llen : String → Option ℕ
  pub network : Network
  pub in_time : Bool

-- What a request of the two routes meets. Times are milliseconds, but the uptime is in seconds.
pub record HealthVisit : Type 0 where
  pub shutting_down : Bool
  pub redis : Option Session
  pub network : Network
  pub meanwhile : World → World
  pub probe_id : String
  pub probe_events : ProbeEvents
  pub database_answers : Bool
  pub database_elapsed : ℕ
  pub redis_elapsed : ℕ
  pub auth_is_valid : Bool
  pub provider_name : String
  pub celery : CeleryVisit
  pub version : String
  pub uptime : ℕ

abbrev pub latency_check : Bool → ℕ → LatencyHealthCheck
latency_check true elapsed = record { status = healthy; latency_ms = some elapsed }
latency_check false elapsed = record { status = unhealthy; latency_ms = none }

-- `_assert_redis_ready`
unfoldable pub assert_redis_ready : HealthVisit → Session → RedisReply (Unit {0}) × Session
unfolding round_trip
assert_redis_ready v s =
    round_trip v.network v.meanwhile v.probe_events "healthcheck" v.probe_id 5 s

abbrev pub is_replied : {A : Type 0} → RedisReply A → Bool
is_replied (replied a) = true
is_replied (raises e) = false

abbrev pub database_health_check : HealthVisit → LatencyHealthCheck
database_health_check v = latency_check v.database_answers v.database_elapsed

unfoldable pub redis_health_check : HealthVisit → Session → LatencyHealthCheck × Session
unfolding assert_redis_ready
redis_health_check v s =
    let met = assert_redis_ready v s in (latency_check (is_replied met.0) v.redis_elapsed, met.1)

abbrev pub auth_health_check : HealthVisit → AuthHealthCheck
auth_health_check v = record {
  status = if v.auth_is_valid then healthy else unhealthy;
  provider = v.provider_name;
}

-- The sum of the lengths of a queue's lists, one for each priority.
unfoldable pub queue_depth : CeleryVisit → String → List ℕ → Option ℕ
unfolding str
queue_depth c queue [] = some 0
queue_depth c queue (priority ∷ priorities) =
    let key = if eqb priority 0 then queue else queue ++ c.sep ++ str priority in
    elim (c.llen key) [
      | none ↦ none
      | some here ↦ elim (queue_depth c queue priorities) [
        | none ↦ none
        | some rest ↦ some (here + rest)
      ]
    ]

unfoldable pub depths : CeleryVisit → List String → Dict ℕ → Option (Dict ℕ)
unfolding queue_depth set_item
depths c [] queue_depths = some queue_depths
depths c (queue ∷ queues) queue_depths = elim (queue_depth c queue c.priority_steps) [
  | none ↦ none
  | some depth ↦ depths c queues (set_item queue_depths queue depth)
]

abbrev pub celery_unhealthy : CeleryHealthCheck
celery_unhealthy = record { status = unhealthy; workers = none; queues = none }

-- What is answered when both parts of the Celery check are.
abbrev pub celery_counted : Option ℕ → Option (Dict ℕ) → CeleryHealthCheck
celery_counted none queues = celery_unhealthy
celery_counted (some workers) none = celery_unhealthy
celery_counted (some workers) (some queues) = record {
  status = if ltb 0 workers then healthy else unhealthy;
  workers = some workers;
  queues = some queues;
}

abbrev pub celery_depths : CeleryVisit → Result ℕ × World → Option (Dict ℕ)
unfolding depths
celery_depths c (err e, w) = none
celery_depths c (ok client, w) = if c.in_time then depths c c.queue_names [] else none

unfoldable pub celery_health_check : CeleryVisit → (World → World) → Session → CeleryHealthCheck
unfolding require_client celery_depths
celery_health_check c meanwhile s =
    celery_counted c.worker_count (celery_depths c (require_client c.network meanwhile s.world))

abbrev pub is_healthy : HealthStatus → Bool
is_healthy healthy = true
is_healthy unhealthy = false

abbrev pub all_healthy : HealthChecks → Bool
all_healthy c =
    is_healthy c.database.status
    && is_healthy c.redis.status
    && is_healthy c.auth.status
    && is_healthy c.celery.status

unfoldable pub checks_of : HealthVisit → Session → HealthChecks
unfolding redis_health_check celery_health_check
checks_of v s =
    let met = redis_health_check v s in
    record {
      database = database_health_check v;
      redis = met.0;
      auth = auth_health_check v;
      celery = celery_health_check v.celery v.meanwhile met.1;
    }

-- `_build_health_response`; none is its `RuntimeError` where the application has no Redis service.
unfoldable pub build_health_response : HealthVisit → Option HealthResponse
unfolding checks_of
build_health_response v = elim v.redis [
  | none ↦ none
  | some s ↦ some (record {
    status = if all_healthy (checks_of v s) && not v.shutting_down then healthy else unhealthy;
    checks = checks_of v s;
    version = v.version;
    uptime_seconds = v.uptime;
  })
]

pub data ReadinessAnswer : Type 0 where
  ready : Dict String → ReadinessAnswer
  not_ready : Option Problem → ReadinessAnswer

abbrev pub dependency_error : String → ProblemFieldError
dependency_error name = record {
  source = unknown;
  field = some name;
  code = "dependency_unavailable";
  message = "The dependency readiness check failed.";
}

-- `_readiness_problem`; no name gives no list of errors.
unfoldable pub readiness_problem : String → List String → Option Problem
unfolding build
readiness_problem detail names = build dependency_unavailable_error (record unset {
  detail = some detail;
  errors = elim names [ [] ↦ none | name ∷ rest ↦ some (map dependency_error (name ∷ rest)) ];
  log_level = some "warning";
})

abbrev pub mark : String → Bool → Dict String → Dict String
unfolding set_item
mark name answers dependencies = set_item dependencies name (if answers then "ok" else "error")

unfoldable pub not_ok : Dict String → List String
not_ok [] = []
not_ok ((name, status) ∷ rest) =
    let others = not_ok rest in if status == "ok" then others else name ∷ others

abbrev pub redis_answers : HealthVisit → Bool
unfolding assert_redis_ready
redis_answers v = elim v.redis [ none ↦ false | some s ↦ is_replied (assert_redis_ready v s).0 ]

-- The end of `readiness`, from whether the database, Redis and the authentication answer.
unfoldable pub settle : Bool → Bool → Bool → ReadinessAnswer
unfolding readiness_problem mark not_ok
settle database redis auth =
    let dependencies = mark "auth" auth (mark "redis" redis (mark "database" database [])) in
    if database && redis && auth
    then ready dependencies
    else not_ready (readiness_problem "One or more readiness checks failed." (not_ok dependencies))

unfoldable pub readiness : HealthVisit → ReadinessAnswer
unfolding readiness_problem redis_answers
readiness v =
    if v.shutting_down
    then not_ready
        (readiness_problem "The service is shutting down and is not ready to accept traffic." [])
    else settle v.database_answers (redis_answers v) v.auth_is_valid
