-- ===== src/Auth/Jwks/Laws.antt =====
-- What the cache of the signing keys serves.
use thryve_financial.Base.{
  ℕ, ◌≡◌, refl, String, Bool, true, false, not, Option, none, some, List, [], ◌∷◌, ◌&&◌, ◌||◌,
  arith, eq_iff, Dict, item, set_item, item-set_item, is_some, if◌then◌else◌, truthy,
}
use thryve_financial.Auth.{Answer, given_back, raises, is_given}
use thryve_financial.Auth.Jwks.{
  JwksCache, KeyEntry, Fetched, keyset, endpoint_timed_out, endpoint_failed, not_json, malformed,
  Refresh, is_fresh, add_entry, parse_keys, keep_keys, take_keys, refresh_keys, get_keys, found,
  found_again, get_signing_key,
}

module _ {A : Type 0} where
  -- No key stands under the empty name.
  abbrev pub IsNamed : JwksCache A → Type 0
  IsNamed c = item c.keys_by_kid "" ≡ none

  -- A key that is given back is the one that the cache has under the name.
  abbrev pub IsServed : String → Answer A × JwksCache A → Type 0
  IsServed kid (given_back jwk, c) = item c.keys_by_kid kid ≡ some jwk
  IsServed kid (raises p, c) = Unit {0}

  -- The endpoint answers with no keyset.
  abbrev pub is_outage : Fetched A → Bool
  is_outage (keyset entries) = false
  is_outage f = true

  abbrev IsCurrent : Answer (Dict A) × JwksCache A → Type 0
  IsCurrent (given_back keys, c) = keys ≡ c.keys_by_kid
  IsCurrent (raises p, c) = Unit {0}

  add_entry-IsNamed :
      (d : Dict A) (e : Option (KeyEntry A)) → item d "" ≡ none → item (add_entry d e) "" ≡ none
  add_entry-IsNamed d none h = h
  add_entry-IsNamed d (some e) h = entry_named e.kid
    where
      entry_named :
          (kid : Option String)
          → item
              (elim kid [ none ↦ d | some k ↦ if truthy (some k) then set_item d k e.jwk else d ])
              ""
            ≡ none
      entry_named none = h
      entry_named (some k) = ground (arith, eq_iff k "", item-set_item d k "" e.jwk)

  parse_keys-IsNamed :
      (d : Dict A) (entries : List (Option (KeyEntry A)))
      → item d "" ≡ none
      → item (parse_keys d entries) "" ≡ none
  unfolding parse_keys
  parse_keys-IsNamed d [] h = h
  parse_keys-IsNamed d (e ∷ es) h = parse_keys-IsNamed (add_entry d e) es (add_entry-IsNamed d e h)

  module _ (capitalize : String → String) (ttl : ℕ) where
    refresh_keys-IsCurrent :
        (force : Bool) (r : Refresh A) (meanwhile : JwksCache A → JwksCache A) (c : JwksCache A)
        → IsCurrent (refresh_keys capitalize ttl force r meanwhile c)
    unfolding refresh_keys
    refresh_keys-IsCurrent force r meanwhile c = ground arith

    get_keys-IsCurrent :
        (now : ℕ) (r : Refresh A) (meanwhile : JwksCache A → JwksCache A) (c : JwksCache A)
        → IsCurrent (get_keys capitalize ttl now r meanwhile c)
    unfolding get_keys
    get_keys-IsCurrent now r meanwhile c =
        ground (arith, refresh_keys-IsCurrent false r meanwhile c)

    found_again-IsServed :
        (kid : String) (x : Answer (Dict A) × JwksCache A)
        → IsCurrent x
        → IsServed kid (found_again capitalize ttl kid x)
    found_again-IsServed kid x h = ground (arith, h)

    found-IsServed :
        (kid : String) (forced : Refresh A) (meanwhile : JwksCache A → JwksCache A)
        (x : Answer (Dict A) × JwksCache A)
        → IsCurrent x
        → IsServed kid (found capitalize ttl kid forced meanwhile x)
    found-IsServed kid forced meanwhile x h = ground (
      arith,
      h,
      found_again-IsServed kid (refresh_keys capitalize ttl true forced meanwhile x.1)
          (refresh_keys-IsCurrent true forced meanwhile x.1),
    )

    -- A key that is given back is the one that the cache then has under the name asked for,
    -- whatever other tasks do in between.
    pub get_signing_key-IsServed :
        (now : ℕ) (r forced : Refresh A) (meanwhile : JwksCache A → JwksCache A) (kid : String)
        (c : JwksCache A)
        → IsServed kid (get_signing_key capitalize ttl now r forced meanwhile kid c)
    unfolding get_signing_key
    get_signing_key-IsServed now r forced meanwhile kid c =
        found-IsServed kid forced meanwhile (get_keys capitalize ttl now r meanwhile c)
          (get_keys-IsCurrent now r meanwhile c)

    keep_keys-IsNamed :
        (d : Dict A) (after : ℕ) (c : JwksCache A)
        → item d "" ≡ none
        → IsNamed c
        → IsNamed (keep_keys capitalize ttl d after c).1
    keep_keys-IsNamed [] after c h v = v
    keep_keys-IsNamed (k ∷ ks) after c h v = h

    take_keys-IsNamed :
        (f : Fetched A) (after : ℕ) (c : JwksCache A)
        → IsNamed c
        → IsNamed (take_keys capitalize ttl f after c).1
    unfolding take_keys
    take_keys-IsNamed endpoint_timed_out after c v = v
    take_keys-IsNamed endpoint_failed after c v = v
    take_keys-IsNamed not_json after c v = v
    take_keys-IsNamed malformed after c v = v
    take_keys-IsNamed (keyset entries) after c v =
        keep_keys-IsNamed (parse_keys [] entries) after c
          (parse_keys-IsNamed [] entries (unfold item in refl)) v

    refresh_keys-IsNamed :
        (force : Bool) (r : Refresh A) (meanwhile : JwksCache A → JwksCache A) (c : JwksCache A)
        → IsNamed (meanwhile c)
        → IsNamed (refresh_keys capitalize ttl force r meanwhile c).1
    unfolding refresh_keys
    refresh_keys-IsNamed force r meanwhile c v =
        ground (arith, take_keys-IsNamed r.fetched r.after (meanwhile c) v)

    get_keys-IsNamed :
        (now : ℕ) (r : Refresh A) (meanwhile : JwksCache A → JwksCache A) (c : JwksCache A)
        → IsNamed c
        → IsNamed (meanwhile c)
        → IsNamed (get_keys capitalize ttl now r meanwhile c).1
    unfolding get_keys
    get_keys-IsNamed now r meanwhile c v w =
        ground (arith, v, refresh_keys-IsNamed false r meanwhile c w)

    found-IsNamed :
        (kid : String) (forced : Refresh A) (meanwhile : JwksCache A → JwksCache A)
        (x : Answer (Dict A) × JwksCache A)
        → IsNamed x.1
        → IsNamed (meanwhile x.1)
        → IsNamed (found capitalize ttl kid forced meanwhile x).1
    found-IsNamed kid forced meanwhile x v w =
        ground (arith, v, refresh_keys-IsNamed true forced meanwhile x.1 w)

    -- If the other tasks keep a cache without a key under the empty name so, the call does.
    pub get_signing_key-IsNamed :
        (now : ℕ) (r forced : Refresh A) (meanwhile : JwksCache A → JwksCache A) (kid : String)
        (c : JwksCache A)
        → ((v : JwksCache A) → IsNamed v → IsNamed (meanwhile v))
        → IsNamed c
        → IsNamed (get_signing_key capitalize ttl now r forced meanwhile kid c).1
    unfolding get_signing_key
    get_signing_key-IsNamed now r forced meanwhile kid c keeps v =
        let (answer, next) = get_keys capitalize ttl now r meanwhile c in
        let named = get_keys-IsNamed now r meanwhile c v (keeps c v) in
        found-IsNamed kid forced meanwhile (get_keys capitalize ttl now r meanwhile c) named
          (keeps next named)

    refresh_outage :
        (force : Bool) (r : Refresh A) (c : JwksCache A)
        → is_outage r.fetched ≡ true
        → ((refresh_keys capitalize ttl force r (λ x. x) c).1 ≡ c)
          × (is_given (refresh_keys capitalize ttl force r (λ x. x) c).0
              ≡ (not force && is_fresh c r.now))
    unfolding refresh_keys
    refresh_outage force r c h = ground (arith, h)

    -- While the endpoint gives no keyset, and no other task runs, the cache stays as it is, and a
    -- key is given back exactly when the cache has it and is not yet run out, at the first look or
    -- at the second.
    pub outage_keeps_keys :
        (now : ℕ) (r forced : Refresh A) (kid : String) (c : JwksCache A)
        → is_outage r.fetched ≡ true
        → is_outage forced.fetched ≡ true
        → let (answer, next) = get_signing_key capitalize ttl now r forced (λ x. x) kid c in
          (next ≡ c)
          × (is_given answer
              ≡ ((is_fresh c now || is_fresh c r.now) && is_some (item c.keys_by_kid kid)))
    unfolding get_signing_key
    outage_keeps_keys now r forced kid c h k = ground (arith, h, k, refresh_outage true forced c k)
