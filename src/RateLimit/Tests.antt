-- ===== src/RateLimit/Tests.antt =====
-- Limits at small inputs.
use thryve_financial.Base.{◌≡◌, ◌↔◌, refl, String, true, none, some, List, [], ◌∷◌, arith, eq_iff}
use thryve_financial.Redis.{World, Network, new_service, is_available}
use thryve_financial.Redis as Redis
use thryve_financial.RateLimit.{RateLimitPolicy, write, Request, resolve_rate_limit_identity}
use thryve_financial.RateLimit.Identity.{user_identity}
use thryve_financial.RateLimit.Limiter.{
  AppState, Surroundings, Event, redis_call, route_call, get_or_create_limiter, recovered, call,
  pass, exceed, handle_all,
}
use thryve_financial.RateLimit.Limiter.Currency.{IsInUse, handed_out_limiter}
use thryve_financial.RateLimit.Limiter.Outcomes.{LetPass, strict_fails_closed}

abbrev hash : String → String
hash token = token

abbrev policy : RateLimitPolicy
policy = record { limit = 30; window_seconds = 60 }

abbrev network : Network
network = record { connection = 1; answers = true; now = 0 }

abbrev around : Surroundings
around = record { network = network; builds = true; verdict = λ l who. pass }

abbrev crowded : Surroundings
crowded = record around { verdict = λ l who. exceed }

abbrev ada : Request
ada = record {
  user_id = some "ada";
  authorization = some "Bearer t";
  x_forwarded_for = some "10.0.0.1, 10.0.0.2";
  client_host = none;
}

abbrev bob : Request
bob = record ada { user_id = some "bob" }

abbrev app : AppState
app = record { redis = 0; world = new_service; rate_limit_cache = none }

abbrev events : List Event
events =
    route_call around write policy ada
    ∷ redis_call Redis.stops
    ∷ route_call around write policy ada
    ∷ []

forwarded :
    resolve_rate_limit_identity hash (record ada { user_id = none; authorization = none })
    ≡ "ip:10.0.0.1"
unfolding resolve_rate_limit_identity
forwarded = refl

user_identity_example :
    (resolve_rate_limit_identity hash ada ≡ resolve_rate_limit_identity hash bob)
    ↔ (bob.user_id ≡ some "ada")
user_identity_example = user_identity hash ada bob "ada" refl (ground (arith, eq_iff "ada" ""))

handed_out_limiter_example :
    let now = handle_all hash app events in
    let (made, next) = get_or_create_limiter true policy now in
    (next.world ≡ now.world) × IsInUse now.world policy made
handed_out_limiter_example = handed_out_limiter hash app events true policy refl

strict_fails_closed_example :
    let (goes_on, next) = recovered around write app in
    (is_available next.world.service ≡ true)
    × LetPass around
        (resolve_rate_limit_identity hash ada)
        (get_or_create_limiter true policy next).0
strict_fails_closed_example =
    strict_fails_closed hash around write policy ada app refl (unfold call in refl)
