-- ===== src/Redis/Store/Json.antt =====
-- A JSON value that is set is got back.
use thryve_financial.Base.{◌≡◌, ℕ, String, Option, some, arith, eq_refl, set_item, item-set_item}
use thryve_financial.Redis.{World, Network, Result, require_client, ok, err}
use thryve_financial.Redis.Store.{
  Entry, Keyspace, Session, Delivery, answered, unanswered, undelivered, replied, use_client,
  get_value, set_value, get_json, set_json,
}

-- A client that has been asked for is there when it is asked for again.
require_client_again :
    (net later : Network) (meanwhile since : World → World) (w v : World) (client : ℕ)
    → require_client net meanwhile w ≡ (ok client, v)
    → require_client later since v ≡ (ok client, v)
unfolding require_client
require_client_again net later meanwhile since w v client h = ground (arith, h)

-- A call that set a value had a client, and the server has the value.
use_client-set_value :
    (d : Delivery) (key value : String) (ttl : Option ℕ) (entries : Keyspace) (r : Result ℕ × World)
    (t : Session)
    → use_client (set_value d key value ttl) entries r ≡ (replied tt, t)
    → (client : ℕ) × (r ≡ (ok client, t.world))
      × (t.entries ≡ set_item entries key (record { value = value; ttl = ttl }))
unfolding set_value
use_client-set_value answered key value ttl entries (ok client, w) t h =
    (client, ground (arith, h), ground (arith, h))
use_client-set_value unanswered key value ttl entries (ok client, w) t h = ground (arith, h)
use_client-set_value undelivered key value ttl entries (ok client, w) t h = ground (arith, h)
use_client-set_value d key value ttl entries (err e, w) t h = ground (arith, h)

get_value-set_item :
    (key : String) (e : Entry) (entries stored : Keyspace)
    → stored ≡ set_item entries key e
    → get_value answered key stored ≡ (replied (some e.value), stored)
unfolding get_value
get_value-set_item key e entries stored same =
    ground (arith, same, item-set_item entries key key e, eq_refl key)

-- If a JSON value is set and the call returns, and its text is read as that value, then a later
-- `get_json` of the key that is answered gives the value, and leaves all as it was, without a
-- look at the network.
pub get_json-set_json :
    {J : Type 0} (loads : String → Option J) (dumps : J → String) (net later : Network)
    (meanwhile since : World → World) (d : Delivery) (key : String) (value : J) (ttl : Option ℕ)
    (s t : Session)
    → set_json loads dumps net meanwhile d key value ttl s ≡ (replied tt, t)
    → loads (dumps value) ≡ some value
    → get_json loads dumps later since answered key t ≡ (replied (some value), t)
unfolding get_json set_json
get_json-set_json loads dumps net later meanwhile since d key value ttl s t set read =
    let known =
      use_client-set_value d key (dumps value) ttl s.entries (require_client net meanwhile s.world)
        t set in
    ground (
      arith,
      read,
      known,
      require_client_again net later meanwhile since s.world t.world known.0 known.1,
      get_value-set_item key (record { value = dumps value; ttl = ttl }) s.entries t.entries
          known.2,
    )
