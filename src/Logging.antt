-- ===== src/Logging.antt =====
-- pfm/app/core/logging.py: the redaction of an event and the fields that the processors add.
-- `str.lower` is a parameter; a value that is no container is a text.
pub mod Redaction
mod Tests
use Prim.Native.Char.{code}
use Prim.Native.String
use thryve_financial.Base.{
  ℕ, suc, ◌+◌, String, Bool, true, false, not, ◌&&◌, ◌||◌, Option, none, some, List, [], ◌∷◌, ◌==◌,
  Dict, set_item, eqb, leb, strip, elem, truthy, if◌then◌else◌,
}
use thryve_financial.Middleware.{RequestContext}

-- A character as `re.IGNORECASE` compares it with a small letter.
abbrev pub folded : ℕ → ℕ
folded c =
    if leb 65 c && leb c 90
    then c + 32
    else if eqb c 383
    then 115
    else if eqb c 8490
    then 107
    else if eqb c 304 || eqb c 305
    then 105
    else c

-- A piece of a pattern: a letter, or `[_-]?`.
pub data Piece : Type 0 where
  letter : ℕ → Piece
  dash : Piece

abbrev pub is_dash : ℕ → Bool
is_dash c = eqb c 95 || eqb c 45

-- The pieces match at the start of the text.
unfoldable pub matches_here : List Piece → String → Bool
matches_here [] s = true
matches_here (letter p ∷ ps) String.[] = false
matches_here (letter p ∷ ps) (String.◌∷◌ c s) = eqb (folded (code c)) p && matches_here ps s
matches_here (dash ∷ ps) String.[] = matches_here ps String.[]
matches_here (dash ∷ ps) (String.◌∷◌ c s) =
    matches_here ps (String.◌∷◌ c s) || (is_dash (code c) && matches_here ps s)

-- They match somewhere in it.
unfoldable pub found_in : List Piece → String → Bool
unfolding matches_here
found_in ps String.[] = matches_here ps String.[]
found_in ps (String.◌∷◌ c s) = matches_here ps (String.◌∷◌ c s) || found_in ps s

-- The letters of a text, and then the pieces.
unfoldable pub spelled : String → List Piece → List Piece
spelled String.[] ps = ps
spelled (String.◌∷◌ c s) ps = letter (code c) ∷ spelled s ps

-- `_SENSITIVE_FIELD_PATTERN`: its alternatives.
unfoldable pub sensitive_patterns : List (List Piece)
unfolding spelled
sensitive_patterns =
    spelled "password" []
    ∷ spelled "secret" []
    ∷ spelled "token" []
    ∷ spelled "ssn" []
    ∷ spelled "authorization" []
    ∷ spelled "cookie" []
    ∷ spelled "api" (dash ∷ spelled "key" [])
    ∷ spelled "credit" (dash ∷ spelled "card" [])
    ∷ spelled "card" (dash ∷ spelled "number" [])
    ∷ []

unfoldable pub any_found : List (List Piece) → String → Bool
unfolding found_in
any_found [] s = false
any_found (ps ∷ rest) s = found_in ps s || any_found rest s

-- `_SENSITIVE_FIELD_NAMES`
abbrev pub sensitive_names : List String
sensitive_names =
    "api_key" ∷ "apikey" ∷ "authorization" ∷ "cookie" ∷ "credit_card" ∷ "creditcard" ∷ "card_number"
    ∷ "password" ∷ "refresh_token" ∷ "secret" ∷ "set_cookie" ∷ "set-cookie" ∷ "ssn" ∷ "token"
    ∷ "x_api_key" ∷ "x_secret" ∷ []

-- `s.replace("-", "_")`
unfoldable pub underscored : String → String
underscored String.[] = ""
underscored (String.◌∷◌ c s) =
    let rest = underscored s in if eqb (code c) 45 then String.◌∷◌ "_" rest else String.◌∷◌ c rest

unfoldable pub normalize_key : (String → String) → String → String
unfolding underscored strip
normalize_key lower key = underscored (lower (strip key))

-- A key of a dictionary: a text, or something else.
pub data Key : Type 0 where
  text_key : String → Key
  other_key : ℕ → Key

unfoldable pub should_redact_key : (String → String) → Key → Bool
unfolding normalize_key any_found sensitive_patterns
should_redact_key lower (other_key n) = false
should_redact_key lower (text_key key) =
    elem (normalize_key lower key) sensitive_names || any_found sensitive_patterns key

mutual
  -- A value of an event.
  pub data Value : Type 0 where
    scalar : String → Value
    dictionary : Entries → Value
    sequence : Values → Value
    tuple : Values → Value

  pub data Values : Type 0 where
    no_values : Values
    value_then : Value → Values → Values

  pub data Entries : Type 0 where
    no_entries : Entries
    entry_then : Key → Value → Entries → Entries

-- `_REDACTED`
abbrev pub redacted : Value
redacted = scalar "[REDACTED]"

-- `_MAX_REDACTION_DEPTH`
abbrev pub max_redaction_depth : ℕ
max_redaction_depth = 8

unfoldable mutual
  pub sanitize_value : (String → String) → ℕ → Value → Value
  sanitize_value lower depth (scalar s) = scalar s
  sanitize_value lower depth (dictionary es) =
      let inner = sanitize_entries lower (suc depth) es in
      if leb max_redaction_depth depth then dictionary es else dictionary inner
  sanitize_value lower depth (sequence vs) =
      let inner = sanitize_values lower (suc depth) vs in
      if leb max_redaction_depth depth then sequence vs else sequence inner
  sanitize_value lower depth (tuple vs) =
      let inner = sanitize_values lower (suc depth) vs in
      if leb max_redaction_depth depth then tuple vs else tuple inner

  -- The items of a sequence, at a depth.
  pub sanitize_values : (String → String) → ℕ → Values → Values
  sanitize_values lower depth no_values = no_values
  sanitize_values lower depth (value_then v vs) =
      value_then (sanitize_value lower depth v) (sanitize_values lower depth vs)

  -- The entries of a dictionary, at a depth.
  pub sanitize_entries : (String → String) → ℕ → Entries → Entries
  sanitize_entries lower depth no_entries = no_entries
  sanitize_entries lower depth (entry_then key v es) =
      let inner = sanitize_value lower depth v in
      entry_then key (if should_redact_key lower key then redacted else inner)
        (sanitize_entries lower depth es)

-- `redact_sensitive_fields`
unfoldable pub redact_sensitive_fields : (String → String) → Value → Value
unfolding sanitize_value
redact_sensitive_fields lower event = sanitize_value lower 0 event

-- `if value: event_dict[name] = value`
abbrev pub with_text : String → Option String → Dict String → Dict String
with_text name none event = event
with_text name (some s) event = if s == "" then event else set_item event name s

-- `add_request_context`, with the user id and the anonymous id, on the texts of an event.
unfoldable pub add_request_context : RequestContext → Dict String → Dict String
unfolding set_item
add_request_context c event =
    with_text "anonymous_id" c.anonymous_id
      (with_text "user_id" c.user_id (with_text "request_id" c.correlation_id event))
