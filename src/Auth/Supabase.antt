-- ===== src/Auth/Supabase.antt =====
-- pfm/app/auth/supabase.py: the calls of Supabase and what is read of its answers. The HTTP client is
-- the parameter `transport`, which answers the n-th request of a flow; `datetime.fromisoformat` and
-- `str.lower` are parameters. The metadata of a profile is kept as texts.
pub mod Flows
pub mod Resets
pub mod SignUp
mod Tests
use Prim.Native.Char.{code}
use Prim.Native.String
use Prim.Native.String.{◌++◌}
use thryve_financial.Base.{
  ℕ, zero, suc, String, Bool, true, false, not, ◌&&◌, ◌||◌, Option, none, some, List, [], ◌∷◌, ◌==◌,
  Dict, Integer, eqb, leb, strip, is_some, remove_prefix, if◌then◌else◌,
}
use thryve_financial.Problem.{Problem, unset, built}
use thryve_financial.Problem.Classes.{invalid_credentials_error, invalid_verification_code_error}
use thryve_financial.Problem.Factories.{dependency_unavailable, upstream_timeout, already_exists}
use thryve_financial.Auth.Directory.{ProviderUserProfile}
use thryve_financial.Auth.Json.{
  JsonValue, null, text, object, JsonFields, no_fields, field_then, Conversions, get_field,
  as_object, as_text, or_json, json_text, json_integer,
}

-- What a flow comes to: its value, a problem as its factory builds it, or another exception.
pub data Outcome (A : Type 0) : Type 0 where
  answered : A → Outcome A
  problem : Option Problem → Outcome A
  error : Outcome A

-- A request to Supabase.
pub record HttpRequest : Type 0 where
  pub method : String
  pub path : String
  pub grant_type : Option String
  pub body : JsonFields
  pub access_token : Option String

-- What comes back: a status, with the body if it is JSON.
pub data Reply : Type 0 where
  timed_out unreachable : Reply
  replied : ℕ → Option JsonValue → Reply

abbrev pub Transport : Type 0
Transport = ℕ → HttpRequest → Reply

-- The settings of the provider, and the functions of Python that it uses.
pub record SupabaseAuthProvider : Type 0 where
  pub resolved_issuer : String
  pub capitalize : String → String
  pub lower : String → String
  pub from_iso : String → Option ℕ
  pub conversions : Conversions
  pub metadata_texts : JsonFields → Dict String

-- The client errors that a call suppresses or replaces.
pub data ClientErrors : Type 0 where
  translated suppressed : ClientErrors
  replaced : Option Problem → ClientErrors

-- `DependencyUnavailableError.for_service("auth", detail=…)`
abbrev pub unavailable : SupabaseAuthProvider → Option String → Option Problem
unavailable s detail = dependency_unavailable s.capitalize "auth" none detail none none

-- `_parse_response_payload`
abbrev pub response_payload : Option JsonValue → JsonFields
response_payload none = no_fields
response_payload (some body) = elim (as_object body) [ none ↦ no_fields | some f ↦ f ]

-- `needle in s`
unfoldable pub contains : String → String → Bool
unfolding remove_prefix
contains needle String.[] = needle == ""
contains needle (String.◌∷◌ c s) =
    is_some (remove_prefix needle (String.◌∷◌ c s)) || contains needle s

-- The message of an error payload.
abbrev pub error_message : SupabaseAuthProvider → JsonFields → String
error_message s payload =
    let c = s.conversions in
    s.lower (
      json_text c (
        or_json c (get_field payload "msg") (
          or_json c (get_field payload "message") (
            or_json c (get_field payload "error_description")
              (or_json c (get_field payload "error") (text ""))))))

-- `_client_error`
unfoldable pub client_error : SupabaseAuthProvider → String → JsonFields → Option Problem
unfolding already_exists contains get_field
client_error s path payload =
    if path == "/token" || path == "/logout"
    then some (
        built invalid_credentials_error
          (record unset { detail = some "The session is invalid or expired." }))
    else if path == "/signup" && contains "already registered" (error_message s payload)
    then already_exists "user" none (some "An account with that email already exists.")
    else some (built invalid_credentials_error unset)

-- The outcome of a client error.
abbrev pub client_failure :
    SupabaseAuthProvider → ClientErrors → String → JsonFields → Outcome JsonFields
client_failure s suppressed path payload = answered payload
client_failure s (replaced p) path payload = problem p
client_failure s translated path payload = problem (client_error s path payload)

-- The end of `_request_json`, from the reply on.
unfoldable pub read_reply :
    SupabaseAuthProvider → ClientErrors → String → Reply → Outcome JsonFields
unfolding client_error upstream_timeout dependency_unavailable
read_reply s errors path timed_out = problem (upstream_timeout s.capitalize "auth" none none 1)
read_reply s errors path unreachable = problem (unavailable s none)
read_reply s errors path (replied status body) =
    if leb 500 status
    then problem (unavailable s none)
    else if leb 400 status
    then client_failure s errors path (response_payload body)
    else answered (response_payload body)

-- `_request_json`, as the n-th request of its flow.
abbrev pub request_json :
    SupabaseAuthProvider → Transport → ℕ → ClientErrors → HttpRequest → Outcome JsonFields
request_json s transport n errors r = read_reply s errors r.path (transport n r)

-- `value.replace("Z", "+00:00")`
unfoldable pub with_offset : String → String
with_offset String.[] = ""
with_offset (String.◌∷◌ c s) =
    let rest = with_offset s in if eqb (code c) 90 then "+00:00" ++ rest else String.◌∷◌ c rest

-- `_parse_datetime`
abbrev pub parse_datetime : SupabaseAuthProvider → Option String → Option ℕ
parse_datetime s none = none
parse_datetime s (some value) = if value == "" then none else s.from_iso (with_offset value)

-- A display name of the metadata: a text that is not blank, stripped.
abbrev pub display_text : Option String → Option String
display_text none = none
display_text (some value) = if strip value == "" then none else some (strip value)

-- `a or b` of optional values
abbrev pub either_of {ℓ} : {A : Type ℓ} → Option A → Option A → Option A
either_of none b = b
either_of (some a) b = some a

abbrev pub metadata_of : JsonFields → JsonFields
metadata_of payload = elim (as_object (get_field payload "user_metadata")) [
  | none ↦ no_fields
  | some f ↦ f
]

-- The first name of the loop that is one.
abbrev pub display_name_of : JsonFields → Option String
display_name_of metadata = either_of (display_text (as_text (get_field metadata "display_name"))) (
    either_of (display_text (as_text (get_field metadata "full_name")))
      (display_text (as_text (get_field metadata "name"))))

-- An email of the model: a text or null; anything else is refused by it.
abbrev pub email_of : JsonValue → Option (Option String)
email_of null = some none
email_of (text s) = some (some s)
email_of value = none

abbrev pub subject_of : SupabaseAuthProvider → JsonFields → String
subject_of s payload =
    let c = s.conversions in
    strip (
      json_text c
        (or_json c (get_field payload "id") (or_json c (get_field payload "sub") (text ""))))

abbrev pub profile : SupabaseAuthProvider → JsonFields → Option String → ProviderUserProfile
profile s payload email = record {
  issuer = s.resolved_issuer;
  subject_id = subject_of s payload;
  email = email;
  display_name = display_name_of (metadata_of payload);
  email_verified_at =
      either_of (parse_datetime s (as_text (get_field payload "email_confirmed_at")))
        (parse_datetime s (as_text (get_field payload "confirmed_at")));
  last_sign_in_at = parse_datetime s (as_text (get_field payload "last_sign_in_at"));
  metadata = s.metadata_texts (metadata_of payload);
}

-- The profile, where its email is one.
abbrev pub with_email :
    SupabaseAuthProvider → JsonFields → Option (Option String) → Outcome ProviderUserProfile
with_email s payload none = error
with_email s payload (some email) = answered (profile s payload email)

-- `_parse_provider_user`
unfoldable pub parse_provider_user : SupabaseAuthProvider → JsonFields → Outcome ProviderUserProfile
unfolding get_field strip with_offset dependency_unavailable
parse_provider_user s payload =
    if subject_of s payload == ""
    then problem (unavailable s (some "Authentication is temporarily unavailable."))
    else with_email s payload (email_of (get_field payload "email"))

pub record ProviderSession : Type 0 where
  pub access_token : String
  pub refresh_token : Option String
  pub token_type : String
  pub expires_in : Option Integer
  pub user : ProviderUserProfile

abbrev pub optional_text : Conversions → JsonValue → Option String
optional_text c null = none
optional_text c value = some (json_text c value)

-- `int(payload["expires_in"])`, where it is given; none is its error.
abbrev pub expiry : Conversions → JsonValue → Option (Option Integer)
expiry c null = some none
expiry c value = elim (json_integer c value) [ none ↦ none | some i ↦ some (some i) ]

-- The session of a token, its expiry and its user, which are read in this order.
abbrev pub session_of :
    SupabaseAuthProvider
    → JsonFields
    → String
    → Option (Option Integer)
    → Outcome ProviderUserProfile
    → Outcome ProviderSession
session_of s payload token none user = error
session_of s payload token (some expires_in) error = error
session_of s payload token (some expires_in) (problem p) = problem p
session_of s payload token (some expires_in) (answered user) = answered (record {
  access_token = token;
  refresh_token = optional_text s.conversions (get_field payload "refresh_token");
  token_type =
      json_text s.conversions
        (or_json s.conversions (get_field payload "token_type") (text "bearer"));
  expires_in = expires_in;
  user = user;
})

-- The session, where the user is a dictionary.
abbrev pub session_for :
    SupabaseAuthProvider → JsonFields → String → Option JsonFields → Outcome ProviderSession
session_for s payload token none =
    problem (unavailable s (some "Authentication is temporarily unavailable."))
session_for s payload token (some user) =
    if token == ""
    then problem (unavailable s (some "Authentication is temporarily unavailable."))
    else session_of s payload token (expiry s.conversions (get_field payload "expires_in"))
        (parse_provider_user s user)

abbrev pub token_of : SupabaseAuthProvider → JsonFields → String
token_of s payload =
    strip
      (json_text s.conversions (or_json s.conversions (get_field payload "access_token") (text "")))

-- `_parse_provider_session`
unfoldable pub parse_provider_session : SupabaseAuthProvider → JsonFields → Outcome ProviderSession
unfolding get_field strip parse_provider_user dependency_unavailable
parse_provider_session s payload =
    session_for s payload (token_of s payload) (as_object (get_field payload "user"))
