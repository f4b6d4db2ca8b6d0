-- ===== src/RateLimit/Limiter/Outcomes.antt =====
-- What a limited route does with and without Redis.
use thryve_financial.Base.{◌<◌, ◌≡◌, ◌≢◌, ◌⊎◌, String, Bool, true, false, arith}
use thryve_financial.Redis.{is_available, raw_client}
use thryve_financial.RateLimit.{
  RateLimitPolicy, RateLimitTier, requires_redis_backend, Request, resolve_rate_limit_identity,
}
use thryve_financial.RateLimit.Limiter.{
  AppState, LimiterCacheState, Surroundings, Created, limiter_of, no_limiter, bad_policy,
  get_or_create_limiter, recovered, call, Outcome, allowed, rate_limited, pass, exceed,
  limiter_cache_for_app, cached_or_created,
}

-- The package, asked with the limiter handed out, let the request pass.
abbrev pub LetPass : Surroundings → String → Created → Type 0
LetPass s who (limiter_of l) = s.verdict l who ≡ pass
LetPass s who made = ⊥

-- A policy with positive values is no `ValueError`, and a limiter needs a published client.
abbrev IsServed : RateLimitPolicy → AppState → Created → Type 0
IsServed policy app (limiter_of l) = is_available app.world.service ≡ true
IsServed policy app no_limiter = Unit {0}
IsServed policy app bad_policy = (policy.limit ≡ 0) ⊎ (policy.window_seconds ≡ 0)

cached_or_created_good :
    (builds : Bool) (policy : RateLimitPolicy) (c : LimiterCacheState) (app : AppState)
    → (cached_or_created builds policy (c, app)).0 ≢ bad_policy
cached_or_created_good builds policy c app = unfold raw_client in ground arith

get_or_create-IsServed :
    (builds : Bool) (policy : RateLimitPolicy) (app : AppState)
    → IsServed policy app (get_or_create_limiter builds policy app).0
unfolding get_or_create_limiter
get_or_create-IsServed builds policy app =
    let (c, fresh) = limiter_cache_for_app app in
    ground (arith, cached_or_created_good builds policy c fresh)

-- A strict tier lets a request go on only if a Redis client is published after its recovery, and
-- the package, asked with a limiter for the request's sender, let it pass.
pub strict_fails_closed :
    (sha256 : String → String) (s : Surroundings) (tier : RateLimitTier) (policy : RateLimitPolicy)
    (r : Request) (app : AppState)
    → requires_redis_backend tier ≡ true
    → (call sha256 s tier policy r app).0 ≡ allowed
    → let (goes_on, next) = recovered s tier app in
      (is_available next.world.service ≡ true)
      × LetPass s
          (resolve_rate_limit_identity sha256 r)
          (get_or_create_limiter s.builds policy next).0
unfolding call
strict_fails_closed sha256 s tier policy r app strict h =
    let (goes_on, next) = recovered s tier app in
    ground (arith, get_or_create-IsServed s.builds policy next)

-- The answer of a tier that is not strict.
abbrev pub lenient_outcome : Surroundings → RateLimitPolicy → String → Created → Outcome
lenient_outcome s policy who (limiter_of l) = elim (s.verdict l who) [
  | exceed ↦ rate_limited policy
  | _ ↦ allowed
]
lenient_outcome s policy who made = allowed

-- A tier that is not strict, with a positive policy, refuses only a request that the package,
-- asked with a limiter for the sender, found in excess, and allows all others, without Redis too.
pub lenient_fails_open :
    (sha256 : String → String) (s : Surroundings) (tier : RateLimitTier) (policy : RateLimitPolicy)
    (r : Request) (app : AppState)
    → requires_redis_backend tier ≡ false
    → 0 < policy.limit
    → 0 < policy.window_seconds
    → let (made, next) = get_or_create_limiter s.builds policy app in
      call sha256 s tier policy r app
      ≡ (lenient_outcome s policy (resolve_rate_limit_identity sha256 r) made, next)
unfolding call recovered
lenient_fails_open sha256 s tier policy r app lenient h k =
    ground (arith, get_or_create-IsServed s.builds policy app)
