-- ===== src/Redis/Store/Tests.antt =====
-- Calls of a service with a client.
use thryve_financial.Base.{
  ◌≡◌, refl, ℕ, String, true, false, Option, none, some, [], ◌∷◌, ◌==◌, arith, item, if◌then◌else◌,
}
use thryve_financial.Redis.{Network}
use thryve_financial.Redis.Keys.{key_of}
use thryve_financial.Redis.Store.{
  Session, ProbeEvents, answered, unanswered, round_trip, delete_pattern,
}
use thryve_financial.Redis.Store.Probe.{told, round_trip_clean}

abbrev down : Network
down = record { connection = 9; answers = true; now = 0 }

abbrev held : Session
held = record {
  world = record {
    service = record {
      client = some 1;
      stopped = false;
      backend_generation = 1;
      last_start_failure_at = none;
    };
    connections = 1 ∷ [];
  };
  entries = ("a:1", record { value = "x"; ttl = none }) ∷ [];
}

abbrev exchange : ProbeEvents
exchange = record {
  set_delivery = answered;
  get_delivery = unanswered;
  delete_delivery = unanswered;
  before_get = λ e. e;
  before_delete = λ e. e;
}

key : key_of (":a:" ∷ "" ∷ "1" ∷ []) ≡ "a:1"
unfolding key_of
key = refl

swept : (delete_pattern (λ k. true) (λ k. answered) held.entries).1 ≡ []
unfolding delete_pattern
swept = refl

round_trip_clean_example :
    ((round_trip down (λ w. w) exchange "healthcheck" "f0" 5 held).0 ≡ told unanswered)
    × ((round_trip down (λ w. w) exchange "healthcheck" "f0" 5 held).1.world ≡ held.world)
    × (item (round_trip down (λ w. w) exchange "healthcheck" "f0" 5 held).1.entries "a:1"
        ≡ item held.entries "a:1")
round_trip_clean_example =
    round_trip_clean down (λ w. w) exchange "healthcheck" "f0" "a:1" 5 1 held refl
      (unfold key_of in unfold item in refl) refl (λ e. ground (arith, e)) (λ e. refl) (λ e. refl)

-- A codec of numbers below 2.
abbrev reads : String → Option ℕ
reads s = if s == "1" then some 1 else none
