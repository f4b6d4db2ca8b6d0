-- ===== src/Auth/Claims.antt =====
-- pfm/app/auth/claims.py, bearer.py and principal.py, and the role and scope checks of
-- pfm/app/dependencies.py. `str.lower` is a parameter; a dictionary of metadata is JSON.
use Prim.Native.Char.{Char, code}
use thryve_financial.Base.{
  ℕ, String, Bool, true, false, not, ◌&&◌, ◌||◌, Option, none, some, List, [], ◌∷◌, ◌==◌, strip,
  is_space, elem, map, select, if◌then◌else◌,
}
use thryve_financial.Auth.Json.{
  JsonValue, null, boolean, integer, float, text, array, object, JsonItems, no_items, item_then,
  JsonFields, no_fields, field_then, Conversions, get_field, as_object, is_true, json_text,
}

pub data Audience : Type 0 where
  audience : String → Audience
  audiences : List String → Audience

pub record VerifiedClaims : Type 0 where
  pub subject_id : String
  pub issuer : String
  pub audience : Audience
  pub expires_at : ℕ
  pub issued_at : ℕ
  pub not_before : Option ℕ
  pub jwt_id : Option String
  pub session_id : Option String
  pub email : Option String
  pub roles : List String
  pub scopes : List String
  pub metadata : JsonFields

unfoldable pub items_of : JsonItems → List JsonValue
items_of no_items = []
items_of (item_then v vs) = v ∷ items_of vs

unfoldable pub keys_of : JsonFields → List JsonValue
keys_of no_fields = []
keys_of (field_then key v rest) = text key ∷ keys_of rest

unfoldable pub characters_of : String → List JsonValue
characters_of String.[] = []
characters_of (String.◌∷◌ c s) = text (String.◌∷◌ c String.[]) ∷ characters_of s

-- What a `for` over the value runs through; none is its `TypeError`.
abbrev pub iterated : JsonValue → Option (List JsonValue)
iterated (array items) = some (items_of items)
iterated (text s) = some (characters_of s)
iterated (object entries) = some (keys_of entries)
iterated null = none
iterated (boolean b) = none
iterated (integer i) = none
iterated (float f) = none

-- `[str(item) for item in value if item]`
abbrev pub texts_of : Conversions → List JsonValue → List String
texts_of c items = map (json_text c) (select (is_true c) items)

abbrev pub all_texts : Conversions → JsonValue → Option (List String)
all_texts c value = elim (iterated value) [ none ↦ none | some items ↦ some (texts_of c items) ]

-- The text starts with a space.
abbrev pub starts_blank : String → Bool
starts_blank String.[] = false
starts_blank (String.◌∷◌ c s) = is_space (code c)

-- A character in front of the words of the text behind it.
abbrev pub word_with : Char → Bool → List String → List String
word_with c blank [] = String.◌∷◌ c String.[] ∷ []
word_with c true (w ∷ rest) = String.◌∷◌ c String.[] ∷ w ∷ rest
word_with c false (w ∷ rest) = String.◌∷◌ c w ∷ rest

-- `s.split()`
unfoldable pub split_words : String → List String
split_words String.[] = []
split_words (String.◌∷◌ c s) =
    let words = split_words s in
    if is_space (code c) then words else word_with c (starts_blank s) words

-- The roles of the application's metadata.
abbrev pub metadata_roles : Conversions → Option JsonFields → JsonValue
metadata_roles c none = null
metadata_roles c (some app_metadata) = elim (get_field app_metadata "roles") [
  | array items ↦ array (listed (texts_of c (items_of items)))
  | null ↦ null
  | boolean b ↦ null
  | integer i ↦ null
  | float f ↦ null
  | text s ↦ null
  | object entries ↦ null
]
  where
    listed : List String → JsonItems
    listed [] = no_items
    listed (s ∷ rest) = item_then (text s) (listed rest)

-- The role, where it is a text that is not empty, else the roles of the metadata.
abbrev pub fallback_roles : Conversions → JsonFields → JsonValue → JsonValue
fallback_roles c claims (text role) =
    if role == ""
    then metadata_roles c (as_object (get_field claims "app_metadata"))
    else array (item_then (text role) no_items)
fallback_roles c claims role = metadata_roles c (as_object (get_field claims "app_metadata"))

abbrev pub claimed_roles : Conversions → JsonFields → JsonValue → JsonValue
claimed_roles c claims null = fallback_roles c claims (get_field claims "role")
claimed_roles c claims roles = roles

-- What a claim is set to: it stays away, it is these texts, or the code raises.
pub data Normalized : Type 0 where
  unset_claim : Normalized
  set_claim : List String → Normalized
  type_error : Normalized

abbrev pub normalized : Conversions → JsonValue → Normalized
normalized c null = unset_claim
normalized c value = elim (all_texts c value) [ none ↦ type_error | some s ↦ set_claim s ]

-- `_normalize_claims`: the roles.
unfoldable pub normalized_roles : Conversions → JsonFields → Normalized
unfolding get_field items_of keys_of characters_of
normalized_roles c claims = normalized c (claimed_roles c claims (get_field claims "roles"))

-- The scopes of `scp`.
abbrev pub scp_scopes : Conversions → JsonValue → Normalized
scp_scopes c (array items) = normalized c (array items)
scp_scopes c (text s) = set_claim (split_words s)
scp_scopes c null = unset_claim
scp_scopes c (boolean b) = unset_claim
scp_scopes c (integer i) = unset_claim
scp_scopes c (float f) = unset_claim
scp_scopes c (object entries) = unset_claim

abbrev pub scope_scopes : Conversions → JsonFields → JsonValue → Normalized
scope_scopes c claims (text s) = set_claim (split_words s)
scope_scopes c claims scope = scp_scopes c (get_field claims "scp")

abbrev pub claimed_scopes : Conversions → JsonFields → JsonValue → Normalized
claimed_scopes c claims null = scope_scopes c claims (get_field claims "scope")
claimed_scopes c claims scopes = normalized c scopes

-- `_normalize_claims`: the scopes.
unfoldable pub normalized_scopes : Conversions → JsonFields → Normalized
unfolding get_field items_of keys_of characters_of split_words
normalized_scopes c claims = claimed_scopes c claims (get_field claims "scopes")

-- `_normalize_claims`: the session id, where there is one.
abbrev pub session_text : Conversions → JsonValue → JsonValue → Option String
session_text c null null = none
session_text c null sid = some (json_text c sid)
session_text c session_id sid = some (json_text c session_id)

unfoldable pub normalized_session_id : Conversions → JsonFields → Option String
unfolding get_field
normalized_session_id c claims =
    session_text c (get_field claims "session_id") (get_field claims "sid")

-- The credentials of an authorization header.
pub record Credentials : Type 0 where
  pub scheme : String
  pub credentials : String

pub data Bearer : Type 0 where
  bearer : String → Bearer
  missing_or_invalid_header : Bearer
  empty_token : Bearer

-- `get_bearer_token`
unfoldable pub get_bearer_token : (String → String) → Option Credentials → Bearer
unfolding strip
get_bearer_token lower none = missing_or_invalid_header
get_bearer_token lower (some c) =
    if not (lower c.scheme == "bearer")
    then missing_or_invalid_header
    else if strip c.credentials == ""
    then empty_token
    else bearer (strip c.credentials)

pub data ActorType : Type 0 where
  user service_account : ActorType

pub record Principal : Type 0 where
  pub subject_id : String
  pub user_id : ℕ
  pub actor_type : ActorType
  pub session_id : Option String
  pub tenant_id : Option ℕ
  pub issuer : Option String
  pub audience : Option Audience
  pub email : Option String
  pub roles : List String
  pub scopes : List String
  pub metadata : JsonFields

-- `require_roles`: one of the roles is enough.
abbrev pub has_any : List String → List String → Bool
has_any [] held = false
has_any (r ∷ rs) held = elem r held || has_any rs held

-- `require_scopes`: all scopes are needed.
abbrev pub has_all : List String → List String → Bool
has_all [] held = true
has_all (r ∷ rs) held = elem r held && has_all rs held

pub data Permission : Type 0 where
  granted : Principal → Permission
  denied : Permission

-- The dependencies; none is the `ValueError` of an empty list.
unfoldable pub require_roles : List String → Option (Principal → Permission)
require_roles [] = none
require_roles (r ∷ rs) = some (λ p. if has_any (r ∷ rs) p.roles then granted p else denied)

unfoldable pub require_scopes : List String → Option (Principal → Permission)
require_scopes [] = none
require_scopes (r ∷ rs) = some (λ p. if has_all (r ∷ rs) p.scopes then granted p else denied)
