-- ===== src/Base/Parsing.antt =====
-- Text methods on whole texts: joins, ends, and integers.
use Prim.Native.Char.{code}
use Prim.Native.String.{String, ◌++◌}
use Prim.Native.Nat.{ℕ, ◌+◌, ◌*◌, ◌-◌}
use mathlib.Core.List.{List, [], ◌∷◌}
use mathlib.Core.Bool.{Bool, true, false, not, ◌&&◌, ◌||◌}
use mathlib.Core.Option.{Option, none, some}
use text.Mathlib.Text.{◌==◌}
use thryve_financial.Base.Tests.{eqb, leb, ltb, is_some, if◌then◌else◌}
use thryve_financial.Base.Text.{strip, remove_prefix}

-- `".".join(…)`
unfoldable pub join_dots : List String → String
join_dots [] = ""
join_dots (s ∷ []) = s
join_dots (s ∷ t ∷ rest) = s ++ "." ++ join_dots (t ∷ rest)

-- The digits of a text after a digit, with single underscores between them.
unfoldable pub more_digits : Bool → ℕ → String → Option ℕ
more_digits after_digit n String.[] = if after_digit then some n else none
more_digits after_digit n (String.◌∷◌ c s) =
    let next = more_digits true (n * 10 + (code c - 48)) s in
    let skip = more_digits false n s in
    if leb 48 (code c) && leb (code c) 57
    then next
    else if after_digit && eqb (code c) 95
    then skip
    else none

-- An integer: whether it is negative, and its absolute value.
pub record Integer : Type 0 where
  pub negative : Bool
  pub magnitude : ℕ

abbrev integer_of : Bool → Option ℕ → Option Integer
integer_of negative none = none
integer_of negative (some n) = some (record { negative = negative; magnitude = n })

-- A sign, and the digits.
unfoldable pub signed : String → Option Integer
unfolding more_digits
signed String.[] = none
signed (String.◌∷◌ c s) =
    if eqb (code c) 45
    then integer_of true (more_digits false 0 s)
    else if eqb (code c) 43
    then integer_of false (more_digits false 0 s)
    else integer_of false (more_digits false 0 (String.◌∷◌ c s))

-- `int(s)` of a Latin-1 text of at most 4300 digits; none is its `ValueError`.
unfoldable pub parse_int : String → Option Integer
unfolding signed strip
parse_int s = signed (strip s)

-- `n > bound`
abbrev pub exceeds : Integer → ℕ → Bool
exceeds i bound = not i.negative && ltb bound i.magnitude

-- `s.endswith(p)`, by the ends of `s`.
unfoldable pub ends_with : String → String → Bool
ends_with p String.[] = p == ""
ends_with p (String.◌∷◌ c s) = (String.◌∷◌ c s == p) || ends_with p s

abbrev pub starts_with : String → String → Bool
starts_with p s = is_some (remove_prefix p s)
