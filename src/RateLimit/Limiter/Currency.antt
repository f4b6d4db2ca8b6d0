-- ===== src/RateLimit/Limiter/Currency.antt =====
-- The limiters in use are bound to the published Redis client.
use thryve_financial.Base.{
  ℕ, ◌≤◌, ◌≡◌, inl, inr, ◌∙◌, sym, ap, subst, String, Bool, true, Option, none, some, List, [], ◌∷◌,
  arith, All,
}
use thryve_financial.Redis.{
  World, Network, Result, ok, err, raw_client, ensure_started, is_available, step,
}
use thryve_financial.Redis as Redis
use thryve_financial.Redis.Laws.{Follows, step-Follows}
use thryve_financial.RateLimit.{RateLimitPolicy, RateLimitTier, Request, same_policy}
use thryve_financial.RateLimit.Limiter.{
  Limiter, LimiterCacheState, AppState, Surroundings, Event, redis_call, route_call, warm_up,
  Created, limiter_of, instance_of, limiter_cache_for_app, get_or_create_limiter, recovered, call,
  warm, initialize_rate_limiting, handle, handle_all, create_limiter, cached_or_created,
}

-- A limiter is kept under its rate and is bound to the published client.
abbrev pub IsBound : Option ℕ → RateLimitPolicy × Limiter → Type 0
IsBound client (policy, limiter) =
    (client ≡ some limiter.client) × (same_policy limiter.rate policy ≡ true)

-- The cache is of no later generation; that of the present one has bound limiters only.
abbrev pub IsFresh : World → LimiterCacheState → Type 0
IsFresh w c =
    (c.backend_generation ≤ w.backend_generation)
    × (c.backend_generation ≡ w.backend_generation → All (IsBound w.client) c.instances)

abbrev HasFresh : World → Option LimiterCacheState → Type 0
HasFresh w none = Unit {0}
HasFresh w (some c) = IsFresh w c

abbrev pub IsCoherent : AppState → Type 0
IsCoherent app = HasFresh app.world app.rate_limit_cache

abbrev IsFound : Option ℕ → RateLimitPolicy → Option Limiter → Type 0
IsFound client policy none = Unit {0}
IsFound client policy (some l) = IsBound client (policy, l)

instance_of-IsBound :
    (client : Option ℕ) (xs : List (RateLimitPolicy × Limiter)) (policy : RateLimitPolicy)
    → All (IsBound client) xs
    → IsFound client policy (instance_of xs policy)
instance_of-IsBound client [] policy bound = tt
instance_of-IsBound client ((p, limiter) ∷ rest) policy bound =
    ground (arith, instance_of-IsBound client rest policy bound.1)

cache-IsCoherent :
    (app : AppState)
    → IsCoherent app
    → let (c, next) = limiter_cache_for_app app in
      All (IsBound app.world.client) c.instances
      × (next.world ≡ app.world)
      × (c.backend_generation ≡ app.world.backend_generation)
      × IsCoherent next
unfolding limiter_cache_for_app
cache-IsCoherent app v = ground arith

-- A limiter handed out is bound to the published client and has the policy asked for.
abbrev pub IsInUse : World → RateLimitPolicy → Created → Type 0
IsInUse w policy (limiter_of l) = IsBound w.client (policy, l)
IsInUse w policy made = Unit {0}

same_policy_refl : (p : RateLimitPolicy) → same_policy p p ≡ true
same_policy_refl p = ground arith

create-IsCoherent :
    (builds : Bool) (policy : RateLimitPolicy) (c : LimiterCacheState) (app : AppState)
    → All (IsBound app.world.client) c.instances
    → c.backend_generation ≡ app.world.backend_generation
    → IsCoherent app
    → let (made, next) = create_limiter builds policy (c, app) in
      IsCoherent next × (next.world ≡ app.world) × IsInUse app.world policy made
unfolding raw_client
create-IsCoherent builds policy c app bound current v = ground (arith, same_policy_refl policy)

cached_or_created-IsCoherent :
    (builds : Bool) (policy : RateLimitPolicy) (c : LimiterCacheState) (app : AppState)
    → All (IsBound app.world.client) c.instances
    → c.backend_generation ≡ app.world.backend_generation
    → IsCoherent app
    → let (made, next) = cached_or_created builds policy (c, app) in
      IsCoherent next × (next.world ≡ app.world) × IsInUse app.world policy made
cached_or_created-IsCoherent builds policy c app bound current v = ground (
  arith,
  create-IsCoherent builds policy c app bound current v,
  instance_of-IsBound app.world.client c.instances policy bound,
)

get_or_create-IsCoherent :
    (builds : Bool) (policy : RateLimitPolicy) (app : AppState)
    → IsCoherent app
    → let (made, next) = get_or_create_limiter builds policy app in
      IsCoherent next × (next.world ≡ app.world) × IsInUse app.world policy made
unfolding get_or_create_limiter
get_or_create-IsCoherent builds policy app v =
    let (c, fresh) = limiter_cache_for_app app in
    let known = cache-IsCoherent app v in
    ground (
      arith,
      known,
      subst
          (λ w.
            let (made, next) = cached_or_created builds policy (c, fresh) in
            IsCoherent next × (next.world ≡ w) × IsInUse w policy made)
          known.1
          (cached_or_created-IsCoherent builds policy c fresh
            (subst (λ w. All (IsBound w.client) c.instances) (sym known.1) known.0)
            (known.2 ∙ ap (λ w. w.backend_generation) (sym known.1)) known.3),
    )

moved-HasFresh :
    (w next : World) (o : Option LimiterCacheState)
    → HasFresh w o
    → Follows w next
    → HasFresh next o
moved-HasFresh w next none v follows = tt
moved-HasFresh w next (some c) v (inl later) = (omega arith, λ same. ground arith)
moved-HasFresh w next (some c) v (inr (same, client)) =
    (omega arith, λ now. subst (λ o. All (IsBound o) c.instances) (sym client) (v.1 (now ∙ same)))

moved-IsCoherent :
    (app : AppState) (w : World)
    → IsCoherent app
    → Follows app.world w
    → IsCoherent (record app { world = w })
moved-IsCoherent app w v follows = moved-HasFresh app.world w app.rate_limit_cache v follows

recovered-IsCoherent :
    (s : Surroundings) (tier : RateLimitTier) (app : AppState)
    → IsCoherent app
    → IsCoherent (recovered s tier app).1
unfolding recovered
recovered-IsCoherent s tier app v = ground (
  arith,
  moved-IsCoherent app (ensure_started s.network (λ w. w) app.world).1 v
      (unfold step in step-Follows app.world (Redis.ensures s.network)),
)

call-IsCoherent :
    (sha256 : String → String) (s : Surroundings) (tier : RateLimitTier) (policy : RateLimitPolicy)
    (r : Request) (app : AppState)
    → IsCoherent app
    → IsCoherent (call sha256 s tier policy r app).1
unfolding call
call-IsCoherent sha256 s tier policy r app v =
    let (goes_on, next) = recovered s tier app in
    let coherent = recovered-IsCoherent s tier app v in
    ground (arith, coherent, get_or_create-IsCoherent s.builds policy next coherent)

warm-IsCoherent :
    (builds : Bool) (policies : List RateLimitPolicy) (app : AppState)
    → IsCoherent app
    → IsCoherent (warm builds policies app)
warm-IsCoherent builds [] app v = v
warm-IsCoherent builds (policy ∷ rest) app v =
    let made = get_or_create-IsCoherent builds policy app v in
    ground
      (arith, made, warm-IsCoherent builds rest (get_or_create_limiter builds policy app).1 made.0)

handle-IsCoherent :
    (sha256 : String → String) (app : AppState) (e : Event)
    → IsCoherent app
    → IsCoherent (handle sha256 app e)
unfolding handle
handle-IsCoherent sha256 app (redis_call c) v =
    moved-IsCoherent app (step app.world c) v (step-Follows app.world c)
handle-IsCoherent sha256 app (route_call s tier policy r) v =
    call-IsCoherent sha256 s tier policy r app v
handle-IsCoherent sha256 app (warm_up builds p) v =
    unfold initialize_rate_limiting in
    ground (
      arith,
      warm-IsCoherent builds
          (p.default_policy ∷ p.write_policy ∷ p.expensive_policy ∷ p.auth_policy ∷ []) app v,
    )

handle_all-IsCoherent :
    (sha256 : String → String) (app : AppState) (events : List Event)
    → IsCoherent app
    → IsCoherent (handle_all sha256 app events)
unfolding handle_all
handle_all-IsCoherent sha256 app [] v = v
handle_all-IsCoherent sha256 app (e ∷ events) v =
    handle_all-IsCoherent sha256 (handle sha256 app e) events (handle-IsCoherent sha256 app e v)

-- Whatever an app without a cache went through, a limiter that it hands out is bound to the
-- client that Redis publishes then, and has the policy asked for; its Redis state is unchanged.
pub handed_out_limiter :
    (sha256 : String → String) (app : AppState) (events : List Event) (builds : Bool)
    (policy : RateLimitPolicy)
    → app.rate_limit_cache ≡ none
    → let now = handle_all sha256 app events in
      let (made, next) = get_or_create_limiter builds policy now in
      (next.world ≡ now.world) × IsInUse now.world policy made
handed_out_limiter sha256 app events builds policy empty =
    let now = handle_all sha256 app events in
    let coherent =
      handle_all-IsCoherent sha256 app events (subst (HasFresh app.world) (sym empty) tt) in
    let handed = get_or_create-IsCoherent builds policy now coherent in (handed.1, handed.2)
