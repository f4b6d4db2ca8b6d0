-- ===== src/Auth/Json.antt =====
-- JSON values as Python reads them, and the tests and conversions that the authentication uses.
-- `str` and `int` of a value that is no text are parameters.
use thryve_financial.Base.{
  String, Bool, true, false, not, Option, none, some, ◌==◌, Integer, parse_int, eqb, if◌then◌else◌,
}

mutual
  pub data JsonValue : Type 0 where
    null : JsonValue
    boolean : Bool → JsonValue
    integer : Integer → JsonValue
    float : String → JsonValue
    text : String → JsonValue
    array : JsonItems → JsonValue
    object : JsonFields → JsonValue

  pub data JsonItems : Type 0 where
    no_items : JsonItems
    item_then : JsonValue → JsonItems → JsonItems

  pub data JsonFields : Type 0 where
    no_fields : JsonFields
    field_then : String → JsonValue → JsonFields → JsonFields

-- `payload.get(name)`, where a name that is missing is null.
unfoldable pub get_field : JsonFields → String → JsonValue
get_field no_fields name = null
get_field (field_then key value rest) name =
    let later = get_field rest name in if key == name then value else later

-- `isinstance(value, dict)`: the dictionary.
abbrev pub as_object : JsonValue → Option JsonFields
as_object (object entries) = some entries
as_object null = none
as_object (boolean b) = none
as_object (integer i) = none
as_object (float f) = none
as_object (text s) = none
as_object (array items) = none

-- `isinstance(value, str)`: the text.
abbrev pub as_text : JsonValue → Option String
as_text (text s) = some s
as_text null = none
as_text (boolean b) = none
as_text (integer i) = none
as_text (float f) = none
as_text (array items) = none
as_text (object entries) = none

-- The conversions of values that are no texts: `str(value)`, `int(value)`, and whether a float is
-- zero.
pub record Conversions : Type 0 where
  pub show : JsonValue → String
  pub truncate : JsonValue → Option Integer
  pub is_zero_float : String → Bool

-- `bool(value)`
abbrev pub is_true : Conversions → JsonValue → Bool
is_true c null = false
is_true c (boolean b) = b
is_true c (integer i) = not (eqb i.magnitude 0)
is_true c (float f) = not (c.is_zero_float f)
is_true c (text s) = not (s == "")
is_true c (array no_items) = false
is_true c (array (item_then v vs)) = true
is_true c (object no_fields) = false
is_true c (object (field_then k v fs)) = true

-- `a or b`
abbrev pub or_json : Conversions → JsonValue → JsonValue → JsonValue
or_json c a b = if is_true c a then a else b

-- `str(value)`
abbrev pub json_text : Conversions → JsonValue → String
json_text c (text s) = s
json_text c null = c.show null
json_text c (boolean b) = c.show (boolean b)
json_text c (integer i) = c.show (integer i)
json_text c (float f) = c.show (float f)
json_text c (array items) = c.show (array items)
json_text c (object entries) = c.show (object entries)

-- `int(value)`; none is its error.
abbrev pub json_integer : Conversions → JsonValue → Option Integer
json_integer c (text s) = parse_int s
json_integer c (integer i) = some i
json_integer c null = none
json_integer c (boolean b) = c.truncate (boolean b)
json_integer c (float f) = c.truncate (float f)
json_integer c (array items) = none
json_integer c (object entries) = none
