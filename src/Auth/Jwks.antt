-- ===== src/Auth/Jwks.antt =====
-- pfm/app/auth/jwks.py: the cache of the signing keys. A time is a number of microseconds. The
-- refresh holds the lock, so it is one step; what other tasks do while it waits for the lock is
-- the function `meanwhile`. `str.capitalize` is a parameter, as is the type of a key.
pub mod Laws
use thryve_financial.Base.{
  ℕ, ◌+◌, ◌*◌, String, Bool, true, false, not, Option, none, some, List, [], ◌∷◌, ◌&&◌, ltb, truthy,
  Dict, item, set_item, if◌then◌else◌,
}
use thryve_financial.Problem.Factories.{dependency_unavailable, invalid_token}
use thryve_financial.Auth.{Answer, given_back, raises}

pub record JwksCache (A : Type 0) : Type 0 where
  pub keys_by_kid : Dict A
  pub expires_at : ℕ

-- `JwksCache(…)`
abbrev pub new_cache_of_keys : {A : Type 0} → JwksCache A
new_cache_of_keys = record { keys_by_kid = []; expires_at = 0 }

-- An object of the keyset: its `kid`, none where it is missing or no text.
pub record KeyEntry (A : Type 0) : Type 0 where
  pub kid : Option String
  pub jwk : A

-- What the endpoint answers; a member of a keyset that is no object is `none`.
pub data Fetched (A : Type 0) : Type 0 where
  endpoint_timed_out endpoint_failed not_json malformed : Fetched A
  keyset : List (Option (KeyEntry A)) → Fetched A

-- A refresh: the time in its locked section, the endpoint's answer, and the time after it.
pub record Refresh (A : Type 0) : Type 0 where
  pub now : ℕ
  pub fetched : Fetched A
  pub after : ℕ

module _ {A : Type 0} where
  -- `bool(keys) and now < expires_at`
  abbrev pub is_fresh : JwksCache A → ℕ → Bool
  is_fresh c now = elim c.keys_by_kid [ [] ↦ false | k ∷ ks ↦ ltb now c.expires_at ]

  -- An entry of the keyset enters the dictionary if it has a name.
  abbrev pub add_entry : Dict A → Option (KeyEntry A) → Dict A
  add_entry d none = d
  add_entry d (some e) = elim e.kid [
    | none ↦ d
    | some kid ↦ if truthy (some kid) then set_item d kid e.jwk else d
  ]

  unfoldable pub parse_keys : Dict A → List (Option (KeyEntry A)) → Dict A
  unfolding set_item
  parse_keys d [] = d
  parse_keys d (e ∷ es) = parse_keys (add_entry d e) es

  module _ (capitalize : String → String) (ttl_seconds : ℕ) where
    abbrev pub unavailable_keys : String → String → Answer (Dict A)
    unavailable_keys detail reason = raises (
        dependency_unavailable capitalize "auth" none (some detail) none
          (some (("auth_reason", reason) ∷ [])))

    -- The keys that were parsed are kept, if there is one.
    abbrev pub keep_keys : Dict A → ℕ → JwksCache A → Answer (Dict A) × JwksCache A
    keep_keys [] after c =
        (unavailable_keys "The auth keyset did not contain any signing keys." "jwks_empty", c)
    keep_keys (k ∷ ks) after c = (
      given_back (k ∷ ks),
      record { keys_by_kid = k ∷ ks; expires_at = after + ttl_seconds * 1000000 },
    )

    unfoldable pub take_keys : Fetched A → ℕ → JwksCache A → Answer (Dict A) × JwksCache A
    unfolding parse_keys
    take_keys endpoint_timed_out after c =
        (unavailable_keys "The auth keyset endpoint timed out." "jwks_timeout", c)
    take_keys endpoint_failed after c =
        (unavailable_keys "The auth keyset endpoint is unavailable." "jwks_unavailable", c)
    take_keys not_json after c =
        (unavailable_keys "The auth keyset response was not valid JSON." "jwks_invalid_json", c)
    take_keys malformed after c =
        (unavailable_keys "The auth keyset response was malformed." "jwks_malformed", c)
    take_keys (keyset entries) after c = keep_keys (parse_keys [] entries) after c

    -- `_refresh_keys`
    unfoldable pub refresh_keys :
        Bool → Refresh A → (JwksCache A → JwksCache A) → JwksCache A → Answer (Dict A) × JwksCache A
    unfolding take_keys
    refresh_keys force r meanwhile c =
        let v = meanwhile c in
        if not force && is_fresh v r.now
        then (given_back v.keys_by_kid, v)
        else take_keys r.fetched r.after v

    -- `_get_keys`
    unfoldable pub get_keys :
        ℕ → Refresh A → (JwksCache A → JwksCache A) → JwksCache A → Answer (Dict A) × JwksCache A
    unfolding refresh_keys
    get_keys now r meanwhile c =
        if is_fresh c now then (given_back c.keys_by_kid, c) else refresh_keys false r meanwhile c

    -- The key after the forced refresh.
    abbrev pub found_again : String → Answer (Dict A) × JwksCache A → Answer A × JwksCache A
    found_again kid (raises p, c) = (raises p, c)
    found_again kid (given_back keys, c) = elim (item keys kid) [
      | none ↦ (raises (invalid_token (some "UnknownKeyId")), c)
      | some jwk ↦ (given_back jwk, c)
    ]

    -- The key of the first lookup, or the forced refresh.
    abbrev pub found :
        String
        → Refresh A
        → (JwksCache A → JwksCache A)
        → Answer (Dict A) × JwksCache A
        → Answer A × JwksCache A
    found kid forced meanwhile (raises p, c) = (raises p, c)
    found kid forced meanwhile (given_back keys, c) = elim (item keys kid) [
      | none ↦ found_again kid (refresh_keys true forced meanwhile c)
      | some jwk ↦ (given_back jwk, c)
    ]

    -- `get_signing_key`, up to the construction of the key from its dictionary.
    unfoldable pub get_signing_key :
        ℕ
        → Refresh A
        → Refresh A
        → (JwksCache A → JwksCache A)
        → String
        → JwksCache A
        → Answer A × JwksCache A
    unfolding get_keys refresh_keys
    get_signing_key now r forced meanwhile kid c =
        found kid forced meanwhile (get_keys now r meanwhile c)
