-- ===== src/Config/Printing.antt =====
-- Dictionaries that are read back from their texts.
use mathlib.Core.List.{append-nil, append_assoc}
use thryve_financial.Base.{
  ◌≡◌, refl, ap, ◌∙◌, sym, String, Bool, true, false, not, ◌&&◌, none, some, [], ◌∷◌, ◌++◌, ◌==◌,
  Dict, item, set_item, strip, lstrip, rstrip, is_some, arith, eq_iff, map, if◌then◌else◌,
}
use thryve_financial.Config.Values.{split_on, parse_entries, parse_key_values}
use thryve_financial.Config.Entries.{
  printed_entry, printed, are_plain, split_on-printed, parse_entries-step,
}

set_item-fresh :
    (d : Dict String) (key value : String)
    → item d key ≡ none
    → set_item d key value ≡ d ++ ((key, value) ∷ [])
unfolding item set_item
set_item-fresh [] key value fresh = refl
set_item-fresh ((name, old) ∷ rest) key value fresh = ground (arith, set_item-fresh rest key value)

-- No key of the second dictionary is in the first.
abbrev are_apart : Dict String → Dict String → Bool
are_apart d [] = true
are_apart d ((key, value) ∷ rest) = not (is_some (item d key)) && are_apart d rest

item-snoc :
    (d : Dict String) (key value other : String)
    → item (d ++ ((key, value) ∷ [])) other
      ≡ (elim (item d other) [ some v ↦ some v | none ↦ if key == other then some value else none ])
unfolding item
item-snoc [] key value other = refl
item-snoc ((name, old) ∷ rest) key value other = ground (arith, item-snoc rest key value other)

are_apart-snoc :
    (d : Dict String) (key value : String) (rest : Dict String)
    → are_apart d rest ≡ true
    → is_some (item rest key) ≡ false
    → are_apart (d ++ ((key, value) ∷ [])) rest ≡ true
unfolding item
are_apart-snoc d key value [] apart fresh = refl
are_apart-snoc d key value ((name, old) ∷ rest) apart fresh = ground (
  arith,
  are_apart-snoc d key value rest,
  item-snoc d key value name,
  eq_iff key name,
  eq_iff name key,
)

parse_entries-printed :
    (d parsed : Dict String)
    → are_plain d ≡ true
    → are_apart parsed d ≡ true
    → parse_entries (map printed_entry d) parsed ≡ some (parsed ++ d)
unfolding parse_entries
parse_entries-printed [] parsed plain apart = ap some (sym (append-nil parsed))
parse_entries-printed ((key, value) ∷ rest) parsed plain apart =
    let fresh = set_item-fresh parsed key value (ground arith) in
    let next = are_apart-snoc parsed key value rest (ground arith) (ground arith) in
    let later = parse_entries-printed rest (set_item parsed key value) (ground arith) in
    parse_entries-step (key, value) (map printed_entry rest) parsed (ground arith)
    ∙ later (ap (λ d. are_apart d rest) fresh ∙ next)
    ∙ ap (λ d. some (d ++ rest)) fresh
    ∙ ap some (append_assoc parsed ((key, value) ∷ []) rest)

are_apart_empty : (d : Dict String) → are_apart [] d ≡ true
unfolding item
are_apart_empty [] = refl
are_apart_empty (e ∷ rest) = are_apart_empty rest

-- A dictionary whose entries are plain is read back from its text as it was.
pub parse_key_values-printed :
    (d : Dict String) → are_plain d ≡ true → parse_key_values (printed d) ≡ some d
unfolding parse_key_values
parse_key_values-printed [] plain =
    unfold printed split_on parse_entries strip lstrip rstrip in refl
parse_key_values-printed (e ∷ rest) plain =
    ap (λ items. parse_entries items []) (split_on-printed e rest plain)
    ∙ parse_entries-printed (e ∷ rest) [] plain (are_apart_empty (e ∷ rest))
