-- ===== src/Base/Text.antt =====
-- Python's text methods that the code uses, on the native texts.
use Prim.Native.Nat.{zero, suc, ◌-◌, ◌*◌, ◌/◌, ℕ}
use Prim.Native.Char.{code}
use Prim.Native.String.{String, ◌++◌}
use mathlib.Core.Bool.{Bool, ◌&&◌, ◌||◌}
use mathlib.Core.Option.{Option, none, some}
use thryve_financial.Base.Tests.{eqb, leb, ltb, if◌then◌else◌}

-- `str.isspace` of a character.
abbrev pub is_space : ℕ → Bool
is_space c =
    (leb 9 c && leb c 13)
    || (leb 28 c && leb c 32)
    || eqb c 133
    || eqb c 160
    || eqb c 5760
    || (leb 8192 c && leb c 8202)
    || eqb c 8232
    || eqb c 8233
    || eqb c 8239
    || eqb c 8287
    || eqb c 12288

-- `s.lstrip()`
unfoldable pub lstrip : String → String
lstrip String.[] = ""
lstrip (String.◌∷◌ c s) = let rest = lstrip s in if is_space (code c) then rest else String.◌∷◌ c s

-- `s.rstrip()`: a character stays if it is no space or one stays behind it.
unfoldable pub rstrip : String → String
rstrip String.[] = ""
rstrip (String.◌∷◌ c s) = elim (rstrip s) [
  | String.[] ↦ if is_space (code c) then "" else String.◌∷◌ c String.[]
  | String.◌∷◌ d rest ↦ String.◌∷◌ c (String.◌∷◌ d rest)
]

-- `s.strip()`
unfoldable pub strip : String → String
unfolding lstrip rstrip
strip s = lstrip (rstrip s)

-- `s.split(sep)[0]`, for a separator of one character.
unfoldable pub before : ℕ → String → String
before sep String.[] = ""
before sep (String.◌∷◌ c s) =
    let rest = before sep s in if eqb (code c) sep then "" else String.◌∷◌ c rest

-- `s[len(p):]` where `s.startswith(p)`.
unfoldable pub remove_prefix : String → String → Option String
remove_prefix String.[] s = some s
remove_prefix (String.◌∷◌ c p) String.[] = none
remove_prefix (String.◌∷◌ c p) (String.◌∷◌ d s) =
    let rest = remove_prefix p s in if eqb (code c) (code d) then rest else none

abbrev digit : ℕ → String
digit n =
    if eqb n 0
    then "0"
    else if eqb n 1
    then "1"
    else if eqb n 2
    then "2"
    else if eqb n 3
    then "3"
    else if eqb n 4
    then "4"
    else if eqb n 5
    then "5"
    else if eqb n 6
    then "6"
    else if eqb n 7
    then "7"
    else if eqb n 8
    then "8"
    else "9"

-- The decimal digits of a number; the number itself is fuel enough, since each step divides it by 10.
unfoldable pub digits : ℕ → ℕ → String
digits zero n = digit n
digits (suc fuel) n =
    let front = digits fuel (n / 10) in
    if ltb n 10 then digit n else front ++ digit (n - n / 10 * 10)

-- `str(n)`
unfoldable pub str : ℕ → String
unfolding digits
str n = digits n n
