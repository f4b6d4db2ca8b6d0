-- ===== src/Health/Tests.antt =====
-- Health requests of an application whose Redis does not give the probe back.
use thryve_financial.Base.{
  ◌≡◌, refl, true, false, not, ◌&&◌, none, some, [], ◌∷◌, ◌==◌, if◌then◌else◌,
}
use thryve_financial.Redis.{Network}
use thryve_financial.Redis.Store.{Session, ProbeEvents, answered, unanswered}
use thryve_financial.Health.{
  HealthVisit, HealthResponse, CeleryVisit, healthy, unhealthy, is_healthy, ready, readiness,
  settle, build_health_response, celery_health_check, checks_of,
}
use thryve_financial.Health.Agreement.{is_ready, reported, unhealthy_names, readiness_agrees}

abbrev network : Network
network = record { connection = 9; answers = true; now = 0 }

abbrev held : Session
held = record {
  world = record {
    service = record {
      client = some 1;
      stopped = false;
      backend_generation = 1;
      last_start_failure_at = none;
    };
    connections = 1 ∷ [];
  };
  entries = [];
}

abbrev well : ProbeEvents
well = record {
  set_delivery = answered;
  get_delivery = answered;
  delete_delivery = answered;
  before_get = λ e. e;
  before_delete = λ e. e;
}

abbrev workers : CeleryVisit
workers = record {
  worker_count = some 2;
  queue_names = "default" ∷ [];
  priority_steps = 0 ∷ 3 ∷ [];
  sep = "/";
  llen = λ key. if key == "default/3" then some 4 else some 1;
  network = network;
  in_time = true;
}

abbrev visit : HealthVisit
visit = record {
  shutting_down = false;
  redis = some held;
  network = network;
  meanwhile = λ w. w;
  probe_id = "f0";
  probe_events = record well { get_delivery = unanswered };
  database_answers = true;
  database_elapsed = 3;
  redis_elapsed = 2;
  auth_is_valid = true;
  provider_name = "supabase";
  celery = workers;
  version = "1";
  uptime = 60;
}

queues :
    celery_health_check workers (λ w. w) held
    ≡ record { status = healthy; workers = some 2; queues = some (("default", 5) ∷ []) }
unfolding celery_health_check
queues = refl

all_ready :
    readiness (record visit { probe_events = well })
    ≡ ready (("database", "ok") ∷ ("redis", "ok") ∷ ("auth", "ok") ∷ [])
unfolding readiness settle
all_ready = refl

no_redis : build_health_response (record visit { redis = none }) ≡ none
unfolding build_health_response
no_redis = refl

abbrev snapshot : HealthResponse
snapshot = record {
  status = unhealthy;
  checks = checks_of visit held;
  version = "1";
  uptime_seconds = 60;
}

readiness_agrees_example :
    (is_ready (readiness visit) ≡ (
      is_healthy snapshot.checks.database.status
      && is_healthy snapshot.checks.redis.status
      && is_healthy snapshot.checks.auth.status))
    × (reported (readiness visit) ≡ unhealthy_names snapshot.checks)
    × ((is_healthy snapshot.status && not (is_ready (readiness visit))) ≡ false)
readiness_agrees_example =
    readiness_agrees visit held snapshot refl refl (unfold build_health_response in refl)
