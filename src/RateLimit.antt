-- ===== src/RateLimit.antt =====
-- pfm/app/core/rate_limit.py: the tiers and their policies, and whom a request counts for. The
-- hash of a token is a parameter.
pub mod Limiter
pub mod Identity
mod Tests
use Prim.Native.String.{◌++◌}
use thryve_financial.Base.{
  ℕ, String, Bool, true, false, Option, none, some, truthy, strip, before, remove_prefix, eqb, ◌&&◌,
  if◌then◌else◌,
}

pub record RateLimitPolicy : Type 0 where
  pub limit : ℕ
  pub window_seconds : ℕ

-- Equality of the frozen dataclass.
abbrev pub same_policy : RateLimitPolicy → RateLimitPolicy → Bool
same_policy p q = eqb p.limit q.limit && eqb p.window_seconds q.window_seconds

pub data RateLimitTier : Type 0 where
  default write expensive auth exempt : RateLimitTier

pub record RateLimitPolicies : Type 0 where
  pub default_policy : RateLimitPolicy
  pub write_policy : RateLimitPolicy
  pub expensive_policy : RateLimitPolicy
  pub auth_policy : RateLimitPolicy

-- `settings.rate_limit`
pub record RateLimitConfig : Type 0 where
  pub default_limit : ℕ
  pub default_window_seconds : ℕ
  pub write_limit : ℕ
  pub write_window_seconds : ℕ
  pub expensive_limit : ℕ
  pub expensive_window_seconds : ℕ
  pub auth_limit : ℕ
  pub auth_window_seconds : ℕ

unfoldable pub build_rate_limit_policies : RateLimitConfig → RateLimitPolicies
build_rate_limit_policies s = record {
  default_policy = record { limit = s.default_limit; window_seconds = s.default_window_seconds };
  write_policy = record { limit = s.write_limit; window_seconds = s.write_window_seconds };
  expensive_policy = record {
    limit = s.expensive_limit;
    window_seconds = s.expensive_window_seconds;
  };
  auth_policy = record { limit = s.auth_limit; window_seconds = s.auth_window_seconds };
}

abbrev pub policy_for_tier : RateLimitPolicies → RateLimitTier → Option RateLimitPolicy
policy_for_tier p default = some p.default_policy
policy_for_tier p write = some p.write_policy
policy_for_tier p expensive = some p.expensive_policy
policy_for_tier p auth = some p.auth_policy
policy_for_tier p exempt = none

-- `_STRICT_REDIS_TIERS`
abbrev pub requires_redis_backend : RateLimitTier → Bool
requires_redis_backend auth = true
requires_redis_backend write = true
requires_redis_backend tier = false

-- What a request says of its sender.
pub record Request : Type 0 where
  pub user_id : Option String
  pub authorization : Option String
  pub x_forwarded_for : Option String
  pub client_host : Option String

-- The address a request counts for, of its forwarding header and its client's host.
abbrev pub address : Option String → Option String → String
address forwarded host =
    if truthy forwarded
    then elim forwarded [ none ↦ "" | some f ↦ "ip:" ++ strip (before 44 f) ]
    else elim host [ none ↦ "ip:unknown" | some h ↦ "ip:" ++ h ]

-- The token of an authorization header.
abbrev pub bearer_token : Option String → Option String
bearer_token none = none
bearer_token (some header) = remove_prefix "Bearer " header

abbrev pub hashed : (String → String) → Option String → Option String
hashed sha256 none = none
hashed sha256 (some token) = some (sha256 token)

-- The key of a user, else of a token, else of a place.
abbrev pub sender_key : Option String → Option String → String → String
sender_key user token_hash place =
    if truthy user
    then elim user [ none ↦ "" | some u ↦ "user:" ++ u ]
    else elim token_hash [ none ↦ place | some hash ↦ "token:" ++ hash ]

unfoldable pub resolve_rate_limit_identity : (String → String) → Request → String
unfolding remove_prefix strip before
resolve_rate_limit_identity sha256 r =
    sender_key r.user_id (hashed sha256 (bearer_token r.authorization))
      (address r.x_forwarded_for r.client_host)
