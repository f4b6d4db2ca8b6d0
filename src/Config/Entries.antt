-- ===== src/Config/Entries.antt =====
-- The text of a dictionary, its pieces and its entries.
use Prim.Native.Char.{Char, code}
use Prim.Native.String
use Prim.Native.String.{◌++◌}
use thryve_financial.Base.{
  ℕ, ◌≡◌, refl, ap, ◌∙◌, sym, String, Bool, true, false, not, ◌&&◌, some, List, [], ◌∷◌, ◌==◌, Dict,
  item, set_item, ◌||◌, is_space, rstrip, lstrip, eqb, strip, map, is_some, arith, eq_iff,
  if◌then◌else◌,
}
use thryve_financial.Config.Values.{split_on, partition, parse_entries}

-- No character of the text is the separator.
unfoldable pub lacks : ℕ → String → Bool
lacks sep String.[] = true
lacks sep (String.◌∷◌ c s) = not (eqb (code c) sep) && lacks sep s

split_on-lacks : (sep : ℕ) (s : String) → lacks sep s ≡ true → split_on sep s ≡ s ∷ []
unfolding split_on lacks
split_on-lacks sep String.[] free = refl
split_on-lacks sep (String.◌∷◌ c s) free = ground (arith, split_on-lacks sep s)

split_on-append :
    (c : Char) (s t : String)
    → lacks (code c) s ≡ true
    → split_on (code c) (s ++ String.◌∷◌ c t) ≡ s ∷ split_on (code c) t
unfolding split_on lacks
split_on-append c String.[] t free =
    ap (split_on (code c)) (λ i. String.append.nil (String.◌∷◌ c t) i) ∙ ground arith
split_on-append c (String.◌∷◌ d s) t free =
    ap (split_on (code c)) (λ i. String.append.cons d s (String.◌∷◌ c t) i)
    ∙ ground (arith, split_on-append c s t)

partition-append :
    (c : Char) (s t : String)
    → lacks (code c) s ≡ true
    → partition (code c) (s ++ String.◌∷◌ c t) ≡ (s, some t)
unfolding partition lacks
partition-append c String.[] t free =
    ap (partition (code c)) (λ i. String.append.nil (String.◌∷◌ c t) i) ∙ ground arith
partition-append c (String.◌∷◌ d s) t free =
    ap (partition (code c)) (λ i. String.append.cons d s (String.◌∷◌ c t) i)
    ∙ ground (arith, partition-append c s t)

lacks-append : (sep : ℕ) (s t : String) → lacks sep (s ++ t) ≡ (lacks sep s && lacks sep t)
unfolding lacks
lacks-append sep String.[] t = ap (lacks sep) (λ i. String.append.nil t i)
lacks-append sep (String.◌∷◌ c s) t =
    ap (lacks sep) (λ i. String.append.cons c s t i) ∙ ground (arith, lacks-append sep s t)

-- A character that `strip` keeps is in the text.
unfoldable has_solid : String → Bool
has_solid String.[] = false
has_solid (String.◌∷◌ c s) = not (is_space (code c)) || has_solid s

has_solid-append : (s t : String) → has_solid t ≡ true → has_solid (s ++ t) ≡ true
unfolding has_solid
has_solid-append String.[] t solid = ap has_solid (λ i. String.append.nil t i) ∙ solid
has_solid-append (String.◌∷◌ c s) t solid =
    ap has_solid (λ i. String.append.cons c s t i) ∙ ground (arith, has_solid-append s t solid)

-- A text that starts with a space, or not.
abbrev SpaceCases : Char → String → Bool → Type 0
SpaceCases c s true = (is_space (code c) ≡ true) × (has_solid s ≡ true)
SpaceCases c s false = is_space (code c) ≡ false

space_cases :
    (c : Char) (s : String) → has_solid (String.◌∷◌ c s) ≡ true → (b : Bool) × SpaceCases c s b
unfolding has_solid
space_cases c s solid = by_space (is_space (code c)) refl
  where
    by_space : (b : Bool) → is_space (code c) ≡ b → (b : Bool) × SpaceCases c s b
    by_space true e = (true, (e, ap (λ x. not x || has_solid s) (sym e) ∙ solid))
    by_space false e = (false, e)

rstrip-has_solid : (s : String) → has_solid s ≡ true → has_solid (rstrip s) ≡ true
unfolding has_solid rstrip
rstrip-has_solid String.[] solid = ground arith
rstrip-has_solid (String.◌∷◌ c s) solid =
    let cases = space_cases c s solid in by_rest (rstrip s) cases.0 cases.1 (rstrip-has_solid s)
  where
    by_rest :
        (r : String) (b : Bool)
        → SpaceCases c s b
        → (has_solid s ≡ true → has_solid r ≡ true)
        → has_solid (elim r [
          | String.[] ↦ if is_space (code c) then "" else String.◌∷◌ c String.[]
          | String.◌∷◌ d rest ↦ String.◌∷◌ c (String.◌∷◌ d rest)
        ])
          ≡ true
    by_rest String.[] true e rest =
        ap (λ x. has_solid (if x then "" else String.◌∷◌ c String.[])) e.0 ∙ rest e.1
    by_rest String.[] false e rest =
        ap (λ x. has_solid (if x then "" else String.◌∷◌ c String.[])) e
        ∙ ap (λ x. not x || false) e
    by_rest (String.◌∷◌ d r) true e rest =
        ap (λ x. not x || has_solid (String.◌∷◌ d r)) e.0 ∙ rest e.1
    by_rest (String.◌∷◌ d r) false e rest = ap (λ x. not x || has_solid (String.◌∷◌ d r)) e

abbrev is_blank : String → Bool
is_blank String.[] = true
is_blank (String.◌∷◌ c s) = false

nonempty : (c : Char) (s : String) → (String.◌∷◌ c s == "") ≡ false
nonempty c s = by_value (String.◌∷◌ c s == "") refl
  where
    by_value : (b : Bool) → (String.◌∷◌ c s == "") ≡ b → b ≡ false
    by_value true e = sym (ap is_blank ((eq_iff (String.◌∷◌ c s) "").0 e))
    by_value false e = refl

lstrip-has_solid : (s : String) → has_solid s ≡ true → (lstrip s == "") ≡ false
unfolding has_solid lstrip
lstrip-has_solid String.[] solid = ground arith
lstrip-has_solid (String.◌∷◌ c s) solid =
    let cases = space_cases c s solid in by_space cases.0 cases.1 (lstrip-has_solid s)
  where
    by_space :
        (b : Bool)
        → SpaceCases c s b
        → (has_solid s ≡ true → (lstrip s == "") ≡ false)
        → ((if is_space (code c) then lstrip s else String.◌∷◌ c s) == "") ≡ false
    by_space true e rest = ap (λ x. (if x then lstrip s else String.◌∷◌ c s) == "") e.0 ∙ rest e.1
    by_space false e rest =
        ap (λ x. (if x then lstrip s else String.◌∷◌ c s) == "") e ∙ nonempty c s

strip-has_solid : (s : String) → has_solid s ≡ true → (strip s == "") ≡ false
unfolding strip
strip-has_solid s solid = lstrip-has_solid (rstrip s) (rstrip-has_solid s solid)

abbrev equals_sign : Char
equals_sign = "="

abbrev comma : Char
comma = ","

-- `key=value`
abbrev pub printed_entry : String × String → String
printed_entry (key, value) = key ++ String.◌∷◌ equals_sign value

-- The entries, with commas between them.
unfoldable pub printed : Dict String → String
printed [] = ""
printed (e ∷ []) = printed_entry e
printed (e ∷ f ∷ rest) = printed_entry e ++ String.◌∷◌ comma (printed (f ∷ rest))

-- A key and a value that are read as they are written: stripped, without a comma, and the key
-- without an equals sign.
abbrev pub is_plain : String × String → Bool
is_plain (key, value) =
    (strip key == key) && (strip value == value) && lacks 44 key && lacks 61 key && lacks 44 value

-- The entries are plain, and no key comes twice.
abbrev pub are_plain : Dict String → Bool
are_plain [] = true
are_plain ((key, value) ∷ rest) =
    is_plain (key, value) && not (is_some (item rest key)) && are_plain rest

printed_entry-lacks : (e : String × String) → is_plain e ≡ true → lacks 44 (printed_entry e) ≡ true
unfolding lacks
printed_entry-lacks (key, value) plain =
    lacks-append 44 key (String.◌∷◌ equals_sign value) ∙ ground arith

pub split_on-printed :
    (e : String × String) (rest : Dict String)
    → are_plain (e ∷ rest) ≡ true
    → split_on 44 (printed (e ∷ rest)) ≡ map printed_entry (e ∷ rest)
unfolding printed
split_on-printed e [] plain =
    split_on-lacks 44 (printed_entry e) (printed_entry-lacks e (ground arith))
split_on-printed e (f ∷ rest) plain =
    split_on-append comma (printed_entry e) (printed (f ∷ rest))
      (printed_entry-lacks e (ground arith))
    ∙ ap (λ x. printed_entry e ∷ x) (split_on-printed f rest (ground arith))

-- An entry that is parsed.
pub parse_entries-step :
    (e : String × String) (rest : List String) (parsed : Dict String)
    → is_plain e ≡ true
    → parse_entries (printed_entry e ∷ rest) parsed ≡ parse_entries rest (set_item parsed e.0 e.1)
unfolding parse_entries
parse_entries-step (key, value) rest parsed plain = ground (
  arith,
  strip-has_solid (printed_entry (key, value))
      (has_solid-append key (String.◌∷◌ equals_sign value) (unfold has_solid in refl)),
  partition-append equals_sign key value,
  eq_iff (strip key) key,
  eq_iff (strip value) value,
)
