-- ===== src/Config/Limits.antt =====
-- The limiters of a process whose settings are accepted.
use thryve_financial.Base.{◌≡◌, ◌≢◌, ◌<◌, Bool, true, some, Integer, exceeds, All, arith}
use thryve_financial.RateLimit.{
  RateLimitTier, default, write, expensive, auth, exempt, RateLimitPolicy,
  build_rate_limit_policies, policy_for_tier,
}
use thryve_financial.RateLimit.Limiter.{
  AppState, LimiterCacheState, bad_policy, create_limiter, cached_or_created, limiter_cache_for_app,
  get_or_create_limiter,
}
use thryve_financial.Config.{
  Settings, FloatTests, accepted, RateLimitValues, rate_limit_items, natural_limits,
  validate_production_requirements,
}
use thryve_financial.Config.Requirements.{IsPositive, accepted_iff_IsReady}

abbrev pub IsUsable : RateLimitPolicy → Type 0
IsUsable p = (0 < p.limit) × (0 < p.window_seconds)

exceeds-positive : (i : Integer) → exceeds i 0 ≡ true → 0 < i.magnitude
exceeds-positive i h = ground arith

create_limiter-usable :
    (builds : Bool) (p : RateLimitPolicy) (x : LimiterCacheState × AppState)
    → (create_limiter builds p x).0 ≢ bad_policy
create_limiter-usable builds p (c, app) e = ground arith

cached_or_created-usable :
    (builds : Bool) (p : RateLimitPolicy) (x : LimiterCacheState × AppState)
    → (cached_or_created builds p x).0 ≢ bad_policy
cached_or_created-usable builds p (c, app) e =
    ground (arith, create_limiter-usable builds p (c, app))

get_or_create_limiter-usable :
    (builds : Bool) (p : RateLimitPolicy) (app : AppState)
    → IsUsable p
    → (get_or_create_limiter builds p app).0 ≢ bad_policy
unfolding get_or_create_limiter
get_or_create_limiter-usable builds p app usable e =
    ground (arith, cached_or_created-usable builds p (limiter_cache_for_app app), usable)

-- A policy of two positive values.
policy_of-IsUsable :
    (limit window : Integer) (p : RateLimitPolicy)
    → exceeds limit 0 ≡ true
    → exceeds window 0 ≡ true
    → some (record { limit = limit.magnitude; window_seconds = window.magnitude }) ≡ some p
    → IsUsable p
policy_of-IsUsable limit window p l w e =
    ground (arith, exceeds-positive limit l, exceeds-positive window w)

policy_for_tier-IsUsable :
    (r : RateLimitValues) (tier : RateLimitTier) (p : RateLimitPolicy)
    → All IsPositive (rate_limit_items r)
    → policy_for_tier (build_rate_limit_policies (natural_limits r)) tier ≡ some p
    → IsUsable p
unfolding build_rate_limit_policies natural_limits
policy_for_tier-IsUsable r default p h e =
    policy_of-IsUsable r.default_limit r.default_window_seconds p h.0 h.1.0 e
policy_for_tier-IsUsable r write p h e =
    policy_of-IsUsable r.write_limit r.write_window_seconds p h.1.1.0 h.1.1.1.0 e
policy_for_tier-IsUsable r expensive p h e =
    policy_of-IsUsable r.expensive_limit r.expensive_window_seconds p h.1.1.1.1.0 h.1.1.1.1.1.0 e
policy_for_tier-IsUsable r auth p h e =
    policy_of-IsUsable r.auth_limit r.auth_window_seconds p h.1.1.1.1.1.1.0 h.1.1.1.1.1.1.1.0 e
policy_for_tier-IsUsable r exempt p h e = ground arith

-- In a process whose settings are accepted, a limiter of any tier is asked for with a positive limit
-- and window, and the `ValueError` of `_get_or_create_limiter` is not raised.
pub accepted_limits-IsUsable :
    {F : Type 0} (t : FloatTests F) (s : Settings F) (tier : RateLimitTier) (p : RateLimitPolicy)
    (builds : Bool) (app : AppState)
    → validate_production_requirements t s ≡ accepted
    → policy_for_tier (build_rate_limit_policies (natural_limits s.rate_limit)) tier ≡ some p
    → IsUsable p × ((get_or_create_limiter builds p app).0 ≢ bad_policy)
accepted_limits-IsUsable t s tier p builds app valid e =
    let ready = (accepted_iff_IsReady t s).0 valid in
    let usable = policy_for_tier-IsUsable s.rate_limit tier p ready.2.1.1.1.0 e in
    (usable, get_or_create_limiter-usable builds p app usable)
