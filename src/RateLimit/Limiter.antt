-- ===== src/RateLimit/Limiter.antt =====
-- pfm/app/core/rate_limit.py: the limiters of an app and the dependency that applies one. The
-- package `fastapi-limiter` is the two parameters `builds` and `verdict`. A call is one step: what
-- other tasks do while it waits is left to the calls before and after it.
pub mod Currency
pub mod Outcomes
use thryve_financial.Base.{
  ℕ, String, Bool, true, false, Option, none, some, List, [], ◌∷◌, ◌&&◌, ◌||◌, eqb, if◌then◌else◌,
}
use thryve_financial.Redis.{
  World, Network, Result, ok, err, is_available, ensure_started, raw_client,
}
use thryve_financial.Redis as Redis
use thryve_financial.RateLimit.{
  RateLimitPolicy, RateLimitTier, RateLimitPolicies, same_policy, requires_redis_backend, Request,
  resolve_rate_limit_identity, exempt, policy_for_tier,
}

-- A limiter of the package: the client of its bucket and the rate.
pub record Limiter : Type 0 where
  pub client : ℕ
  pub rate : RateLimitPolicy

pub record LimiterCacheState : Type 0 where
  pub redis_service : ℕ
  pub backend_generation : ℕ
  pub instances : List (RateLimitPolicy × Limiter)

-- `app.state`: its Redis service, which is an object with a number and a world, and its cache.
pub record AppState : Type 0 where
  pub redis : ℕ
  pub world : World
  pub rate_limit_cache : Option LimiterCacheState

-- `instances.get(policy)`
abbrev pub instance_of : List (RateLimitPolicy × Limiter) → RateLimitPolicy → Option Limiter
instance_of [] policy = none
instance_of ((p, limiter) ∷ rest) policy =
    let found = instance_of rest policy in if same_policy p policy then some limiter else found

-- The cache serves the app's service and its generation.
abbrev pub is_current : AppState → LimiterCacheState → Bool
is_current app c =
    eqb c.redis_service app.redis && eqb c.backend_generation app.world.backend_generation

abbrev pub new_cache : AppState → LimiterCacheState
new_cache app = record {
  redis_service = app.redis;
  backend_generation = app.world.backend_generation;
  instances = [];
}

-- The app's cache, replaced.
abbrev renewed_cache : AppState → LimiterCacheState × AppState
renewed_cache app = (new_cache app, record app { rate_limit_cache = some (new_cache app) })

unfoldable pub limiter_cache_for_app : AppState → LimiterCacheState × AppState
limiter_cache_for_app app = elim app.rate_limit_cache [
  | none ↦ renewed_cache app
  | some c ↦ if is_current app c then (c, app) else renewed_cache app
]

-- A limiter, none, or a `ValueError`.
pub data Created : Type 0 where
  limiter_of : Limiter → Created
  no_limiter bad_policy : Created

-- The new limiter enters the cache.
abbrev pub create_limiter :
    Bool → RateLimitPolicy → LimiterCacheState × AppState → Created × AppState
create_limiter builds policy (c, app) = elim (raw_client app.world.service) [
  | err e ↦ (no_limiter, app)
  | ok client ↦
      if builds
      then (
        limiter_of (record { client = client; rate = policy }),
        record app {
          rate_limit_cache = some (record c {
            instances = (policy, record { client = client; rate = policy }) ∷ c.instances;
          });
        },
      )
      else (no_limiter, app)
]

-- A known limiter is returned, else one is created.
abbrev pub cached_or_created :
    Bool → RateLimitPolicy → LimiterCacheState × AppState → Created × AppState
cached_or_created builds policy (c, app) = elim (instance_of c.instances policy) [
  | some limiter ↦ (limiter_of limiter, app)
  | none ↦ create_limiter builds policy (c, app)
]

unfoldable pub get_or_create_limiter : Bool → RateLimitPolicy → AppState → Created × AppState
unfolding limiter_cache_for_app raw_client
get_or_create_limiter builds policy app =
    if eqb policy.limit 0 || eqb policy.window_seconds 0
    then (bad_policy, app)
    else if is_available app.world.service
    then cached_or_created builds policy (limiter_cache_for_app app)
    else (no_limiter, app)

-- What the package does with a request.
pub data Verdict : Type 0 where
  pass exceed fault : Verdict

pub data Outcome : Type 0 where
  allowed : Outcome
  rate_limited : RateLimitPolicy → Outcome
  unavailable : Outcome
  value_error : Outcome

-- What the package and the network do in a call.
pub record Surroundings : Type 0 where
  pub network : Network
  pub builds : Bool
  pub verdict : Limiter → String → Verdict

-- The package's answer, the callback and the `except` clauses.
abbrev pub applied : Bool → RateLimitPolicy → Verdict → Outcome
applied strict policy pass = allowed
applied strict policy exceed = rate_limited policy
applied strict policy fault = if strict then unavailable else allowed

abbrev pub with_limiter :
    Surroundings
    → RateLimitTier
    → RateLimitPolicy
    → String
    → Created × AppState
    → Outcome × AppState
with_limiter s tier policy who (bad_policy, app) = (value_error, app)
with_limiter s tier policy who (no_limiter, app) =
    (if requires_redis_backend tier then unavailable else allowed, app)
with_limiter s tier policy who (limiter_of limiter, app) =
    (applied (requires_redis_backend tier) policy (s.verdict limiter who), app)

abbrev after_recovery : AppState → Bool × World → Bool × AppState
after_recovery app (started, w) = (started, record app { world = w })

-- The recovery of a strict tier: whether the call goes on.
unfoldable pub recovered : Surroundings → RateLimitTier → AppState → Bool × AppState
unfolding ensure_started
recovered s tier app =
    if requires_redis_backend tier && (if is_available app.world.service then false else true)
    then after_recovery app (ensure_started s.network (λ w. w) app.world)
    else (true, app)

-- `_AppRateLimiter.__call__`
unfoldable pub call :
    (String → String)
    → Surroundings
    → RateLimitTier
    → RateLimitPolicy
    → Request
    → AppState
    → Outcome × AppState
unfolding get_or_create_limiter recovered resolve_rate_limit_identity
call sha256 s tier policy request app =
    let (goes_on, next) = recovered s tier app in
    if goes_on
    then with_limiter s tier policy (resolve_rate_limit_identity sha256 request)
        (get_or_create_limiter s.builds policy next)
    else (unavailable, next)

-- `rate_limit(tier)`: the policy to bind, none where it raises `ValueError`.
abbrev pub rate_limit : RateLimitPolicies → RateLimitTier → Option (RateLimitTier × RateLimitPolicy)
rate_limit policies tier = elim (policy_for_tier policies tier) [
  | none ↦ none
  | some policy ↦ some (tier, policy)
]

-- `initialize_rate_limiting`, as the policies in the order of the registry's fields, up to one
-- that raises.
abbrev pub warm : Bool → List RateLimitPolicy → AppState → AppState
warm builds [] app = app
warm builds (policy ∷ rest) app =
    let (made, next) = get_or_create_limiter builds policy app in
    let warmed = warm builds rest next in elim made [ bad_policy ↦ next | _ ↦ warmed ]

unfoldable pub initialize_rate_limiting : Bool → RateLimitPolicies → AppState → AppState
unfolding get_or_create_limiter
initialize_rate_limiting builds p app =
    if is_available app.world.service
    then warm builds (p.default_policy ∷ p.write_policy ∷ p.expensive_policy ∷ p.auth_policy ∷ [])
        app
    else app

-- What happens to an app: a call of its Redis service, or of a limited route.
pub data Event : Type 0 where
  redis_call : Redis.Call → Event
  route_call : Surroundings → RateLimitTier → RateLimitPolicy → Request → Event
  warm_up : Bool → RateLimitPolicies → Event

unfoldable pub handle : (String → String) → AppState → Event → AppState
unfolding call initialize_rate_limiting Redis.step
handle sha256 app (redis_call c) = record app { world = Redis.step app.world c }
handle sha256 app (route_call s tier policy request) = (call sha256 s tier policy request app).1
handle sha256 app (warm_up builds policies) = initialize_rate_limiting builds policies app

unfoldable pub handle_all : (String → String) → AppState → List Event → AppState
unfolding handle
handle_all sha256 app [] = app
handle_all sha256 app (e ∷ events) = handle_all sha256 (handle sha256 app e) events
