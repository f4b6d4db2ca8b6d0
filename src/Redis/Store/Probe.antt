-- ===== src/Redis/Store/Probe.antt =====
-- A probe of Redis leaves nothing behind.
use thryve_financial.Base.{
  ◌≡◌, ◌≢◌, refl, sym, ap, ◌∙◌, ℕ, String, none, some, [], ◌∷◌, arith, eq_iff, eq_refl, item,
  set_item, pop_item, item-set_item, item-pop_item,
}
use thryve_financial.Redis.{World, Network}
use thryve_financial.Redis.Keys.{key_of}
use thryve_financial.Redis.Store.{
  Entry, Keyspace, Session, ProbeEvents, Delivery, RedisReply, answered, unanswered, undelivered,
  replied, raises, command_failed, get_value, delete_value, check_probe, probe, round_trip, verdict,
}

-- What `round_trip` answers when only its `get` can fail.
abbrev pub told : Delivery → RedisReply (Unit {0})
told answered = replied tt
told unanswered = raises command_failed
told undelivered = raises command_failed

set_then_pop :
    (entries : Keyspace) (key other : String) (e : Entry)
    → item entries key ≡ none
    → item (pop_item (set_item entries key e) key) other ≡ item entries other
set_then_pop entries key other e fresh =
    let at_key : key ≡ other → item entries other ≡ none = λ k. ap (item entries) (sym k) ∙ fresh in
    ground (
      arith,
      item-pop_item (set_item entries key e) key other,
      item-set_item entries key other e,
      eq_iff key other,
      at_key,
    )

get_value-stored :
    (d : Delivery) (key : String) (entries : Keyspace) (e : Entry)
    → item entries key ≡ some e
    → e.value ≡ "ok"
    → verdict (get_value d key entries).0 ≡ told d
unfolding get_value
get_value-stored answered key entries e found value =
    ground (arith, found, value, eq_iff e.value "ok")
get_value-stored unanswered key entries e found value = refl
get_value-stored undelivered key entries e found value = refl

get_value-keeps :
    (d : Delivery) (key : String) (entries : Keyspace) → (get_value d key entries).1 ≡ entries
unfolding get_value
get_value-keeps answered key entries = refl
get_value-keeps unanswered key entries = refl
get_value-keeps undelivered key entries = refl

delete_value-removes :
    (d : Delivery) (key : String) (entries : Keyspace)
    → d ≢ undelivered
    → (delete_value d key entries).1 ≡ pop_item entries key
unfolding delete_value
delete_value-removes answered key entries delivered = refl
delete_value-removes unanswered key entries delivered = refl
delete_value-removes undelivered key entries delivered = absurd (delivered refl)

check_probe_lem :
    (x : ProbeEvents) (key : String) (entries : Keyspace) (e : Entry)
    → x.delete_delivery ≢ undelivered
    → ((e : Keyspace) → x.before_get e ≡ e)
    → ((e : Keyspace) → x.before_delete e ≡ e)
    → item entries key ≡ some e
    → e.value ≡ "ok"
    → check_probe x key entries ≡ (told x.get_delivery, pop_item entries key)
unfolding check_probe
check_probe_lem x key entries e delivered quiet still found value = ground (
  arith,
  quiet entries,
  still entries,
  get_value-stored x.get_delivery key entries e found value,
  get_value-keeps x.get_delivery key entries,
  delete_value-removes x.delete_delivery key entries delivered,
)

probe_lem :
    (x : ProbeEvents) (key : String) (ttl : ℕ) (entries : Keyspace)
    → x.set_delivery ≡ answered
    → x.delete_delivery ≢ undelivered
    → ((e : Keyspace) → x.before_get e ≡ e)
    → ((e : Keyspace) → x.before_delete e ≡ e)
    → probe x key ttl entries ≡ (
      told x.get_delivery,
      pop_item (set_item entries key (record { value = "ok"; ttl = some ttl })) key,
    )
unfolding probe
probe_lem x key ttl entries set delivered quiet still =
    let e : Entry = record { value = "ok"; ttl = some ttl } in
    let found = item-set_item entries key key e in
    ground (
      arith,
      set,
      eq_refl key,
      found,
      check_probe_lem x key (set_item entries key e) e delivered quiet still,
    )

-- If a client is there and the probe's key is fresh, the `set` is answered, the `delete` reaches
-- the server, and no other client changes the keys meanwhile, then a round trip succeeds exactly
-- as its `get` does, and leaves every key as it was.
pub round_trip_clean :
    (net : Network) (meanwhile : World → World) (x : ProbeEvents) (prefix id other : String)
    (ttl client : ℕ) (s : Session)
    → s.world.client ≡ some client
    → item s.entries (key_of (prefix ∷ id ∷ [])) ≡ none
    → x.set_delivery ≡ answered
    → x.delete_delivery ≢ undelivered
    → ((e : Keyspace) → x.before_get e ≡ e)
    → ((e : Keyspace) → x.before_delete e ≡ e)
    → ((round_trip net meanwhile x prefix id ttl s).0 ≡ told x.get_delivery)
      × ((round_trip net meanwhile x prefix id ttl s).1.world ≡ s.world)
      × (item (round_trip net meanwhile x prefix id ttl s).1.entries other ≡ item s.entries other)
unfolding round_trip
round_trip_clean net meanwhile x prefix id other ttl client s there fresh set delivered quiet
      still =
    ground (
      arith,
      there,
      probe_lem x (key_of (prefix ∷ id ∷ [])) ttl s.entries set delivered quiet still,
      set_then_pop s.entries (key_of (prefix ∷ id ∷ [])) other
          (record { value = "ok"; ttl = some ttl }) fresh,
    )
