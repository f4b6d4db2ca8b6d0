-- ===== src/Redis/Store.antt =====
-- pfm/app/db/redis.py: the helper methods of `RedisService`, over the keys that the server holds. The
-- JSON codec and the match of a pattern are parameters. A command may be answered, or carried out
-- without an answer in time, or neither.
pub mod Probe
pub mod Json
mod Tests
use Prim.Native.String.{◌++◌}
use thryve_financial.Base.{
  ℕ, String, Bool, true, false, Option, none, some, List, [], ◌∷◌, Dict, item, set_item, pop_item,
  is_text, if◌then◌else◌,
}
use thryve_financial.Redis.Keys.{key_of}
use thryve_financial.Redis.{World, Network, RedisError, Result, ok, err, require_client}

-- A value with its time to live in seconds.
pub record Entry : Type 0 where
  pub value : String
  pub ttl : Option ℕ

abbrev pub Keyspace : Type 0
Keyspace = Dict Entry

pub data Delivery : Type 0 where
  answered unanswered undelivered : Delivery

pub data CallError : Type 0 where
  no_client : RedisError → CallError
  command_failed unexpected_value not_json : CallError

pub data RedisReply (A : Type 0) : Type 0 where
  replied : A → RedisReply A
  raises : CallError → RedisReply A

abbrev pub command : {A : Type 0} → Delivery → A → Keyspace → Keyspace → RedisReply A × Keyspace
command answered a before after = (replied a, after)
command unanswered a before after = (raises command_failed, after)
command undelivered a before after = (raises command_failed, before)

-- The service, and what the server holds.
pub record Session : Type 0 where
  pub world : World
  pub entries : Keyspace

abbrev pub use_client :
    {A : Type 0}
    → (Keyspace → RedisReply A × Keyspace)
    → Keyspace
    → Result ℕ × World
    → RedisReply A × Session
use_client call entries (err e, w) = (raises (no_client e), record { world = w; entries = entries })
use_client call entries (ok client, w) =
    let answer = call entries in (answer.0, record { world = w; entries = answer.1 })

-- A method that asks for the client and calls it.
unfoldable pub with_client :
    {A : Type 0}
    → Network
    → (World → World)
    → (Keyspace → RedisReply A × Keyspace)
    → Session
    → RedisReply A × Session
unfolding require_client
with_client net meanwhile call s = use_client call s.entries (require_client net meanwhile s.world)

unfoldable pub ping : Network → (World → World) → Delivery → Session → RedisReply Bool × Session
unfolding with_client
ping net meanwhile d = with_client net meanwhile (λ entries. command d true entries entries)

-- `RedisService.get`, of an entry that has not expired.
unfoldable pub get_value : Delivery → String → Keyspace → RedisReply (Option String) × Keyspace
unfolding item
get_value d key entries =
    command d (elim (item entries key) [ none ↦ none | some e ↦ some e.value ]) entries entries

unfoldable pub set_value :
    Delivery → String → String → Option ℕ → Keyspace → RedisReply (Unit {0}) × Keyspace
unfolding set_item
set_value d key value ttl entries =
    command d tt entries (set_item entries key (record { value = value; ttl = ttl }))

unfoldable pub delete_value : Delivery → String → Keyspace → RedisReply (Unit {0}) × Keyspace
unfolding pop_item
delete_value d key entries = command d tt entries (pop_item entries key)

-- What a probe meets: how its three commands fare, and what other clients do between them.
pub record ProbeEvents : Type 0 where
  pub set_delivery : Delivery
  pub get_delivery : Delivery
  pub delete_delivery : Delivery
  pub before_get : Keyspace → Keyspace
  pub before_delete : Keyspace → Keyspace

abbrev pub verdict : RedisReply (Option String) → RedisReply (Unit {0})
verdict (raises e) = raises e
verdict (replied value) = if is_text value "ok" then replied tt else raises unexpected_value

-- The probe behind an answered `set`: whatever it finds, it deletes its key, and passes over the
-- failure of that.
unfoldable pub check_probe : ProbeEvents → String → Keyspace → RedisReply (Unit {0}) × Keyspace
unfolding get_value delete_value
check_probe x key entries =
    let found = get_value x.get_delivery key (x.before_get entries) in
    (verdict found.0, (delete_value x.delete_delivery key (x.before_delete found.1)).1)

abbrev pub probe_set :
    ProbeEvents → String → RedisReply (Unit {0}) × Keyspace → RedisReply (Unit {0}) × Keyspace
unfolding check_probe
probe_set x key (raises e, entries) = (raises e, entries)
probe_set x key (replied done, entries) = check_probe x key entries

-- `RedisService.round_trip` behind the client.
unfoldable pub probe : ProbeEvents → String → ℕ → Keyspace → RedisReply (Unit {0}) × Keyspace
unfolding set_value probe_set
probe x key ttl entries = probe_set x key (set_value x.set_delivery key "ok" (some ttl) entries)

-- `RedisService.round_trip`; the id is a fresh `uuid4` in hexadecimal digits.
unfoldable pub round_trip :
    Network
    → (World → World)
    → ProbeEvents
    → String
    → String
    → ℕ
    → Session
    → RedisReply (Unit {0}) × Session
unfolding with_client probe key_of
round_trip net meanwhile x prefix id ttl =
    with_client net meanwhile (probe x (key_of (prefix ∷ id ∷ [])) ttl)

-- `async for key in scan_iter(match=pattern): await delete(key)`, for the keys that the scan gives.
unfoldable pub delete_keys :
    (String → Delivery) → List String → Keyspace → RedisReply (Unit {0}) × Keyspace
unfolding delete_value
delete_keys d [] entries = (replied tt, entries)
delete_keys d (key ∷ keys) entries = elim (d key) [
  | answered ↦ delete_keys d keys (pop_item entries key)
  | unanswered ↦ (raises command_failed, pop_item entries key)
  | undelivered ↦ (raises command_failed, entries)
]

unfoldable pub matching : (String → Bool) → Keyspace → List String
matching matches [] = []
matching matches ((key, e) ∷ entries) =
    let rest = matching matches entries in if matches key then key ∷ rest else rest

-- `RedisService.delete_pattern`, where no key comes or goes during the scan.
unfoldable pub delete_pattern :
    (String → Bool) → (String → Delivery) → Keyspace → RedisReply (Unit {0}) × Keyspace
unfolding delete_keys matching
delete_pattern matches d entries = delete_keys d (matching matches entries) entries

module _ {J : Type 0} (loads : String → Option J) (dumps : J → String) where
  -- `json.loads` of what is found; its `ValueError` goes to the caller.
  abbrev pub loaded : RedisReply (Option String) → RedisReply (Option J)
  loaded (raises e) = raises e
  loaded (replied none) = replied none
  loaded (replied (some raw)) = elim (loads raw) [
    | none ↦ raises not_json
    | some value ↦ replied (some value)
  ]

  unfoldable pub get_json :
      Network → (World → World) → Delivery → String → Session → RedisReply (Option J) × Session
  unfolding with_client get_value
  get_json net meanwhile d key s =
      let found = with_client net meanwhile (get_value d key) s in (loaded found.0, found.1)

  unfoldable pub set_json :
      Network
      → (World → World)
      → Delivery
      → String
      → J
      → Option ℕ
      → Session
      → RedisReply (Unit {0}) × Session
  unfolding with_client set_value
  set_json net meanwhile d key value ttl =
      with_client net meanwhile (set_value d key (dumps value) ttl)
