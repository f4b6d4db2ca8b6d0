-- ===== src/RateLimit/Identity.antt =====
-- Whom a request counts for: the key of each sender is its own.
use Prim.Native.String.{◌++◌}
use thryve_financial.Base.{
  remove_prefix-append, remove_prefix-none, ◌≡◌, ◌≢◌, ◌↔◌, ap, remove_prefix, strip, before, refl,
  String, true, false, Option, none, some, arith, truthy, if◌then◌else◌, eq_iff, ◌==◌,
}
use thryve_financial.RateLimit.{
  Request, resolve_rate_limit_identity, bearer_token, address, sender_key, hashed,
}

-- The user that a key names.
abbrev user_of : String → Option String
user_of key = remove_prefix "user:" key

user_of-ip : (a : String) → user_of ("ip:" ++ a) ≡ none
user_of-ip a = remove_prefix-none "u" "i" "ser:" "p:" a refl

user_of-token : (a : String) → user_of ("token:" ++ a) ≡ none
user_of-token a = remove_prefix-none "u" "t" "ser:" "oken:" a refl

user_of-unknown : user_of "ip:unknown" ≡ none
unfolding remove_prefix
user_of-unknown = refl

user_of-host : (host : Option String) → user_of (address none host) ≡ none
user_of-host none = user_of-unknown
user_of-host (some h) = user_of-ip h

user_of-address : (forwarded host : Option String) → user_of (address forwarded host) ≡ none
user_of-address none host = user_of-host host
user_of-address (some f) host =
    elim (f == "")
      as (λ b.
        user_of
          (if if b then false else true then "ip:" ++ strip (before 44 f) else address none host)
        ≡ none) [ true ↦ user_of-host host | false ↦ user_of-ip (strip (before 44 f)) ]

user_of-other :
    (token_hash : Option String) (place : String)
    → user_of place ≡ none
    → user_of (sender_key none token_hash place) ≡ none
user_of-other none place away = away
user_of-other (some hash) place away = user_of-token hash

user_of-sender_key :
    (user token_hash : Option String) (place : String)
    → user_of place ≡ none
    → user_of (sender_key user token_hash place) ≡ (if truthy user then user else none)
user_of-sender_key none token_hash place away = user_of-other token_hash place away
user_of-sender_key (some u) token_hash place away =
    elim (u == "")
      as (λ b.
        user_of
          (if if b then false else true then "user:" ++ u else sender_key none token_hash place)
        ≡ (if if b then false else true then some u else none)) [
          | true ↦ user_of-other token_hash place away
          | false ↦ remove_prefix-append "user:" u
        ]

user_of-identity :
    (sha256 : String → String) (r : Request)
    → user_of (resolve_rate_limit_identity sha256 r)
      ≡ (if truthy r.user_id then r.user_id else none)
unfolding resolve_rate_limit_identity
user_of-identity sha256 r =
    user_of-sender_key r.user_id (hashed sha256 (bearer_token r.authorization))
      (address r.x_forwarded_for r.client_host) (user_of-address r.x_forwarded_for r.client_host)

-- A request with a user counts for that user only: it shares its key with another request exactly
-- when the other has the same user, whatever headers either sends.
pub user_identity :
    (sha256 : String → String) (r other : Request) (user : String)
    → r.user_id ≡ some user
    → user ≢ ""
    → (resolve_rate_limit_identity sha256 r ≡ resolve_rate_limit_identity sha256 other)
      ↔ (other.user_id ≡ some user)
user_identity sha256 r other user known nonempty = (
  λ same. ground (
    arith,
    eq_iff user "",
    user_of-identity sha256 r,
    user_of-identity sha256 other,
    ap user_of same,
  ),
  λ same. unfold resolve_rate_limit_identity in ground (arith, eq_iff user ""),
)
