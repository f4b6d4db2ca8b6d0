-- ===== src/Problem/Handlers.antt =====
-- pfm/app/middleware/error_handler.py: which problem an exception becomes. `str.lower`, `str.upper`
-- and the phrases of HTTP statuses are parameters; a header is a text decoded as Latin-1. The log
-- lines and the metric are left out.
use thryve_financial.Base.{
  Integer, parse_int, exceeds, ends_with, starts_with, join_dots, ℕ, String, Bool, true, false, not,
  ◌&&◌, ◌||◌, Option, none, some, List, [], ◌∷◌, ◌==◌, Dict, str, strip, before, remove_prefix, map,
  if◌then◌else◌,
}
use thryve_financial.Problem.{
  ErrorSource, body, query, path, header, cookie, unknown, ProblemFieldError, Problem, unset, built,
}
use thryve_financial.Problem.Classes.{
  malformed_request_error, unsupported_media_type_error, request_validation_problem,
  internal_server_problem,
}
use thryve_financial.Problem.Registry.{problem_for_status}

-- A part of the location of an error: a name or an index.
pub data Part : Type 0 where
  name : String → Part
  index : ℕ → Part

-- An item of `exc.errors()`.
pub record ValidationItem : Type 0 where
  pub loc : Option (List Part)
  pub error_type : Option String
  pub msg : Option String

-- What the handlers read of a request.
pub record RequestHead : Type 0 where
  pub method : String
  pub content_length : Option String
  pub transfer_encoding : Option String
  pub content_type : Option String

-- `str(part)`
abbrev pub part_text : Part → String
part_text (name s) = s
part_text (index n) = str n

unfoldable pub field_name : List Part → Option String
unfolding join_dots str
field_name [] = none
field_name (p ∷ ps) = some (join_dots (map part_text (p ∷ ps)))

abbrev pub source_of : String → ErrorSource
source_of s =
    if s == "body"
    then body
    else if s == "query"
    then query
    else if s == "path"
    then path
    else if s == "header"
    then header
    else if s == "cookie"
    then cookie
    else unknown

-- The source and the remainder of a location.
abbrev pub located : Option (List Part) → ErrorSource × List Part
located none = (unknown, [])
located (some []) = (unknown, [])
located (some (p ∷ ps)) = (source_of (part_text p), ps)

abbrev pub text_or : Option String → String → String
text_or none fallback = fallback
text_or (some s) fallback = s

abbrev pub field_error : ValidationItem → ProblemFieldError
field_error i = record {
  source = (located i.loc).0;
  field = field_name (located i.loc).1;
  code = text_or i.error_type "validation_error";
  message = text_or i.msg "Invalid value";
}

unfoldable pub problem_field_errors : List ValidationItem → List ProblemFieldError
unfolding field_name str
problem_field_errors items = map field_error items

-- `int(content_length) > 0`, and true where that is no integer.
abbrev pub positive_or_odd : Option Integer → Bool
positive_or_odd none = true
positive_or_odd (some i) = exceeds i 0

unfoldable pub request_has_body : (String → String) → RequestHead → Bool
unfolding parse_int
request_has_body lower r = elim r.content_length [
  | some s ↦ positive_or_odd (parse_int s)
  | none ↦ lower (text_or r.transfer_encoding "") == "chunked"
]

abbrev pub is_json_or_form : String → Bool
is_json_or_form normalized =
    normalized == "application/json"
    || ends_with "+json" normalized
    || starts_with "application/x-www-form-urlencoded" normalized
    || starts_with "multipart/form-data" normalized

unfoldable pub content_type_is_supported : (String → String) → Option String → Bool
unfolding before strip ends_with remove_prefix
content_type_is_supported lower none = true
content_type_is_supported lower (some s) =
    if s == "" then true else is_json_or_form (lower (strip (before 59 s)))

-- `item.get("type") == "json_invalid"`
abbrev pub is_json_invalid : ValidationItem → Bool
is_json_invalid i = text_or i.error_type "" == "json_invalid"

-- `loc[0] == "body"`
abbrev pub is_body_part : Part → Bool
is_body_part (name s) = s == "body"
is_body_part (index n) = false

-- `item.get("loc", ("",))[0] == "body"`; none is the `IndexError` of an empty location.
abbrev pub is_body_related : Option (List Part) → Option Bool
is_body_related none = some false
is_body_related (some []) = none
is_body_related (some (p ∷ ps)) = some (is_body_part p)

-- `any(…)` over the items, which stops at the first that is true.
unfoldable pub any_body_related : List ValidationItem → Option Bool
any_body_related [] = some false
any_body_related (i ∷ is) =
    let rest = any_body_related is in
    elim (is_body_related i.loc) [ none ↦ none | some true ↦ some true | some false ↦ rest ]

unfoldable pub any_json_invalid : List ValidationItem → Bool
any_json_invalid [] = false
any_json_invalid (i ∷ is) = is_json_invalid i || any_json_invalid is

-- `str.lower` and `str.upper`
pub record Cases : Type 0 where
  pub lower : String → String
  pub upper : String → String

abbrev pub is_body_method : String → Bool
is_body_method method = method == "POST" || method == "PUT" || method == "PATCH"

-- The body of the request has a media type that is not read.
abbrev pub is_unsupported : Cases → RequestHead → Bool → Bool
is_unsupported cases r body_related =
    is_body_method (cases.upper r.method)
    && request_has_body cases.lower r
    && body_related
    && not (content_type_is_supported cases.lower r.content_type)

-- `MalformedRequestError.default(errors=…)`
abbrev pub malformed : List ValidationItem → Problem
malformed items =
    built malformed_request_error (record unset { errors = some (problem_field_errors items) })

-- `RequestValidationProblem.from_errors`
abbrev pub from_errors : List ValidationItem → Problem
from_errors items =
    built request_validation_problem (record unset { errors = some (problem_field_errors items) })

-- The problem of the items, once it is known whether one is about the body.
abbrev pub validation_problem :
    Cases → RequestHead → List ValidationItem → Option Bool → Option Problem
validation_problem cases r items none = none
validation_problem cases r items (some body_related) =
    if is_unsupported cases r body_related
    then some (built unsupported_media_type_error unset)
    else some (from_errors items)

-- `_validation_problem_for_request`; none is an `IndexError`.
unfoldable pub validation_problem_for_request :
    Cases → RequestHead → List ValidationItem → Option Problem
unfolding any_json_invalid any_body_related problem_field_errors request_has_body
    content_type_is_supported
validation_problem_for_request cases r items =
    if any_json_invalid items
    then some (malformed items)
    else validation_problem cases r items (any_body_related items)

-- An exception that reaches the handlers; the detail of an HTTP exception is a text or something
-- else.
pub data Exception : Type 0 where
  raised_problem : Problem → Exception
  request_validation_error : List ValidationItem → Exception
  http_exception : ℕ → Option String → Option (Dict String) → Exception
  unhandled : Exception

-- The problem that the handler registered for the exception answers with.
unfoldable pub handled_problem :
    Cases → (ℕ → Option String) → RequestHead → Exception → Option Problem
unfolding validation_problem_for_request problem_for_status
handled_problem cases phrases r (raised_problem p) = some p
handled_problem cases phrases r (request_validation_error items) =
    validation_problem_for_request cases r items
handled_problem cases phrases r (http_exception status detail headers) =
    problem_for_status phrases status detail headers
handled_problem cases phrases r unhandled = some (built internal_server_problem unset)
