-- ===== src/Redis.antt =====
-- pfm/app/db/redis.py: the life of the process's Redis client. Times are microseconds of the event
-- loop's clock, a client is the number of its connection, and `connections` are those open.
-- `_start_lock` makes each locked section one step: what other tasks do while a call waits for the
-- lock is the function `meanwhile`. Metrics and log lines are left out.
pub mod Laws
pub mod Keys
pub mod Store
mod Tests
use thryve_financial.Base.{
  ℕ, ◌+◌, ◌-◌, ◌&&◌, not, Bool, true, false, Option, none, some, List, [], ◌∷◌, ltb, eqb, select,
  is_some, if◌then◌else◌,
}

pub record RedisService : Type 0 where
  pub client : Option ℕ
  pub stopped : Bool
  pub backend_generation : ℕ
  pub last_start_failure_at : Option ℕ

pub record World : Type 0 where
  pub service : RedisService
  pub open service use *
  pub connections : List ℕ

pub data RedisError : Type 0 where
  unavailable service_stopped ping_failed : RedisError

pub data Result (A : Type 0) : Type 0 where
  ok : A → Result A
  err : RedisError → Result A

-- What the network does in a call: the number of a new connection, whether its ping is answered,
-- and the time.
pub record Network : Type 0 where
  pub connection : ℕ
  pub answers : Bool
  pub now : ℕ

-- `RedisService(url=…)`
abbrev pub new_service : World
new_service = record {
  service = record {
    client = none;
    stopped = false;
    backend_generation = 0;
    last_start_failure_at = none;
  };
  connections = [];
}

-- `_start_retry_cooldown_seconds`
abbrev pub start_retry_cooldown : ℕ
start_retry_cooldown = 1000000

abbrev pub is_available : RedisService → Bool
is_available s = is_some s.client

-- `_build_client`
abbrev pub build_client : Network → World → World
build_client net w = record w { connections = net.connection ∷ w.connections }

-- `_close_client`
unfoldable pub close_client : Option ℕ → World → World
close_client none w = w
close_client (some c) w = record w { connections = select (λ d. not (eqb d c)) w.connections }

-- A ping that fails leaves its time and no connection.
abbrev pub start_failed : Network → World → World
start_failed net w = close_client (some net.connection) (record (build_client net w) {
  service = record w.service { last_start_failure_at = some net.now };
})

abbrev pub start_done : Network → World → World
start_done net w = record (build_client net w) {
  service = record w.service {
    client = some net.connection;
    backend_generation = w.service.backend_generation + 1;
    last_start_failure_at = none;
  };
}

unfoldable pub start_locked : Network → World → Result (Unit {0}) × World
unfolding close_client
start_locked net w =
    if is_available w.service
    then (ok tt, w)
    else if w.stopped
    then (err service_stopped, w)
    else if net.answers
    then (ok tt, start_done net w)
    else (err ping_failed, start_failed net w)

unfoldable pub start : Network → (World → World) → World → Result (Unit {0}) × World
unfolding start_locked
start net meanwhile w =
    if is_available w.service then (ok tt, w) else start_locked net (meanwhile w)

-- `now - self._last_start_failure_at < self._start_retry_cooldown_seconds`
abbrev pub cooling_down : Option ℕ → ℕ → Bool
cooling_down none now = false
cooling_down (some at) now = ltb now (at + start_retry_cooldown)

abbrev pub succeeded : Result (Unit {0}) × World → Bool × World
succeeded (ok u, w) = (true, w)
succeeded (err e, w) = (false, w)

unfoldable pub ensure_locked : Network → World → Bool × World
unfolding start_locked
ensure_locked net w =
    if is_available w.service
    then (true, w)
    else if w.stopped
    then (false, w)
    else if cooling_down w.last_start_failure_at net.now
    then (false, w)
    else succeeded (start_locked net w)

unfoldable pub ensure_started : Network → (World → World) → World → Bool × World
unfolding ensure_locked
ensure_started net meanwhile w =
    if is_available w.service
    then (true, w)
    else if w.stopped
    then (false, w)
    else ensure_locked net (meanwhile w)

abbrev stopped_service : RedisService → RedisService
stopped_service s = record {
  client = none;
  stopped = true;
  backend_generation = if is_available s then s.backend_generation + 1 else s.backend_generation;
  last_start_failure_at = none;
}

-- `stop` and `close`
unfoldable pub stop : (World → World) → World → World
unfolding close_client
stop meanwhile w =
    let v = meanwhile w in
    close_client v.service.client (record v { service = stopped_service v.service })

-- `raw_client`
unfoldable pub raw_client : RedisService → Result ℕ
raw_client s = elim s.client [
  | some c ↦ ok c
  | none ↦ if s.stopped then err service_stopped else err unavailable
]

-- What `require_client` does after `ensure_started`.
abbrev required : Bool × World → Result ℕ × World
required (false, w) = (if w.stopped then err service_stopped else err unavailable, w)
required (true, w) = elim w.client [ none ↦ (err unavailable, w) | some c ↦ (ok c, w) ]

unfoldable pub require_client : Network → (World → World) → World → Result ℕ × World
unfolding ensure_started
require_client net meanwhile w = elim w.client [
  | some c ↦ (ok c, w)
  | none ↦ if w.stopped then (err service_stopped, w) else required (ensure_started net meanwhile w)
]

-- The calls of a process, one locked section each.
pub data Call : Type 0 where
  starts ensures requires : Network → Call
  stops : Call

abbrev alone : World → World
alone w = w

unfoldable pub step : World → Call → World
unfolding start ensure_started require_client stop
step w (starts net) = (start net alone w).1
step w (ensures net) = (ensure_started net alone w).1
step w (requires net) = (require_client net alone w).1
step w stops = stop alone w

unfoldable pub run : World → List Call → World
unfolding step
run w [] = w
run w (c ∷ calls) = run (step w c) calls
