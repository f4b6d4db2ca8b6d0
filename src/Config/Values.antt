-- ===== src/Config/Values.antt =====
-- pfm/app/config.py: texts of the environment as lists, dictionaries and switches.
use Prim.Native.Char.{Char, code}
use thryve_financial.Base.{
  ℕ, String, Bool, true, false, ◌||◌, Option, none, some, List, [], ◌∷◌, ◌==◌, Dict, item, set_item,
  eqb, strip, is_some, if◌then◌else◌,
}

-- A character in front of the first piece.
abbrev pub onto_first : Char → List String → List String
onto_first c [] = String.◌∷◌ c String.[] ∷ []
onto_first c (s ∷ rest) = String.◌∷◌ c s ∷ rest

-- `s.split(sep)`, for a separator of one character.
unfoldable pub split_on : ℕ → String → List String
split_on sep String.[] = "" ∷ []
split_on sep (String.◌∷◌ c s) =
    let rest = split_on sep s in if eqb (code c) sep then "" ∷ rest else onto_first c rest

-- The stripped pieces that are not empty.
unfoldable pub stripped_items : List String → List String
unfolding strip
stripped_items [] = []
stripped_items (s ∷ rest) =
    let later = stripped_items rest in if strip s == "" then later else strip s ∷ later

-- `parse_string_lists` and `parse_excluded_urls` of a text
unfoldable pub parse_string_list : String → List String
unfolding split_on stripped_items
parse_string_list value = stripped_items (split_on 44 value)

-- `s.partition(sep)`: what is before the separator, and what is after it where there is one.
unfoldable pub partition : ℕ → String → String × Option String
partition sep String.[] = ("", none)
partition sep (String.◌∷◌ c s) =
    let rest = partition sep s in
    if eqb (code c) sep then ("", some s) else (String.◌∷◌ c rest.0, rest.1)

-- The dictionary with an entry, or the `ValueError` of one without a separator.
abbrev pub with_entry : Dict String → String × Option String → Option (Dict String)
with_entry parsed (key, none) = none
with_entry parsed (key, some value) = some (set_item parsed (strip key) (strip value))

abbrev pub maybe_next :
    (Dict String → Option (Dict String)) → Option (Dict String) → Option (Dict String)
maybe_next next none = none
maybe_next next (some parsed) = next parsed

-- The loop of `parse_key_value_strings`.
unfoldable pub parse_entries : List String → Dict String → Option (Dict String)
unfolding partition strip set_item
parse_entries [] parsed = some parsed
parse_entries (s ∷ rest) parsed =
    if strip s == ""
    then parse_entries rest parsed
    else maybe_next (parse_entries rest) (with_entry parsed (partition 61 s))

-- `parse_key_value_strings` of a text; none is its `ValueError`.
unfoldable pub parse_key_values : String → Option (Dict String)
unfolding parse_entries split_on
parse_key_values value = parse_entries (split_on 44 value) []

-- `reject_legacy_fields`: the legacy keys that are found, in order.
abbrev pub found_legacy : {V : Type 0} → Dict V → List String
found_legacy values =
    let rest = if is_some (item values "exporter") then "exporter" ∷ [] else [] in
    if is_some (item values "endpoint") then "endpoint" ∷ rest else rest

-- `normalize_debug` of a text: a switch, or the text as it is.
unfoldable pub normalize_debug : (String → String) → String → Option Bool
unfolding strip
normalize_debug lower v =
    let normalized = lower (strip v) in
    if normalized == "release"
      || normalized == "prod"
      || normalized == "production"
      || normalized == "off"
    then some false
    else if normalized == "debug"
        || normalized == "dev"
        || normalized == "development"
        || normalized == "on"
    then some true
    else none
