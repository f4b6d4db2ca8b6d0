-- ===== src/Pagination.antt =====
-- pfm/app/core/pagination.py: the cursor of a page and its size. The base64 of Python's standard
-- library is written out on bytes; a cursor is the list of its ASCII codes, and the UTF-8 of a text is a
-- parameter.
pub mod Cursor
mod Tests
use thryve_financial.Base.{
  ℕ, suc, ◌+◌, ◌-◌, ◌*◌, ◌/◌, min, String, Bool, Option, none, some, List, [], ◌∷◌, ◌++◌, eqb, ltb,
  leb, ◌&&◌, if◌then◌else◌,
}

abbrev pub lowest : ℕ → ℕ → ℕ
lowest n d = n - n / d * d

-- The symbol of six bits.
unfoldable pub symbol : ℕ → ℕ
symbol n =
    if ltb n 26
    then 65 + n
    else if ltb n 52
    then 71 + n
    else if ltb n 62
    then n - 4
    else if eqb n 62
    then 45
    else 95

-- `base64.urlsafe_b64encode`
unfoldable pub urlsafe_b64encode : List ℕ → List ℕ
unfolding symbol
urlsafe_b64encode [] = []
urlsafe_b64encode (a ∷ []) = symbol (a / 4) ∷ symbol (lowest a 4 * 16) ∷ 61 ∷ 61 ∷ []
urlsafe_b64encode (a ∷ b ∷ []) =
    symbol (a / 4) ∷ symbol (lowest a 4 * 16 + b / 16) ∷ symbol (lowest b 16 * 4) ∷ 61 ∷ []
urlsafe_b64encode (a ∷ b ∷ c ∷ rest) =
    symbol (a / 4)
    ∷ symbol (lowest a 4 * 16 + b / 16)
    ∷ symbol (lowest b 16 * 4 + c / 64)
    ∷ symbol (lowest c 64)
    ∷ urlsafe_b64encode rest

-- The translation of the safe symbols, and then the six bits of a symbol of base64.
abbrev translate : ℕ → ℕ
translate c = if eqb c 45 then 43 else if eqb c 95 then 47 else c

unfoldable pub six_bits : ℕ → Option ℕ
six_bits c =
    if leb 65 c && leb c 90
    then some (c - 65)
    else if leb 97 c && leb c 122
    then some (c - 71)
    else if leb 48 c && leb c 57
    then some (c + 4)
    else if eqb c 43
    then some 62
    else if eqb c 47
    then some 63
    else none

-- The place in a group of four symbols, with the bits that are left over.
pub data Quad : Type 0 where
  first : Quad
  second third fourth : ℕ → Quad

pub data Step : Type 0 where
  finished : Step
  goes : Quad → ℕ → List ℕ → Step

abbrev pub pad : Quad → ℕ → Step
pad first pads = goes first pads []
pad (second left) pads = goes (second left) pads []
pad (third left) pads = if leb 4 (2 + suc pads) then finished else goes (third left) (suc pads) []
pad (fourth left) pads = finished

abbrev pub take_bits : Quad → ℕ → Step
take_bits first n = goes (second n) 0 []
take_bits (second left) n = goes (third (lowest n 16)) 0 ((left * 4 + n / 16) ∷ [])
take_bits (third left) n = goes (fourth (lowest n 4)) 0 ((left * 16 + n / 4) ∷ [])
take_bits (fourth left) n = goes first 0 ((left * 64 + n) ∷ [])

-- A symbol that is none of base64 is passed over.
unfoldable pub step : Quad → ℕ → ℕ → Step
unfolding six_bits
step q pads c =
    if eqb c 61
    then pad q pads
    else elim (six_bits (translate c)) [ none ↦ goes q pads [] | some n ↦ take_bits q n ]

abbrev pub before_all : List ℕ → Option (List ℕ) → Option (List ℕ)
before_all out none = none
before_all out (some rest) = some (out ++ rest)

abbrev pub ends_group : Quad → Option (List ℕ)
ends_group first = some []
ends_group (second left) = none
ends_group (third left) = none
ends_group (fourth left) = none

-- `base64.urlsafe_b64decode`, from a place in a group; none is its `binascii.Error`.
unfoldable pub decode_from : Quad → ℕ → List ℕ → Option (List ℕ)
unfolding step
decode_from q pads [] = ends_group q
decode_from q pads (c ∷ cs) = elim (step q pads c) [
  | finished ↦ some []
  | goes next count out ↦ before_all out (decode_from next count cs)
]

pub record Utf8 : Type 0 where
  pub encode : String → List ℕ
  pub decode : List ℕ → Option String

module _ (utf8 : Utf8) where
  unfoldable pub encode_cursor : String → List ℕ
  unfolding urlsafe_b64encode
  encode_cursor value = urlsafe_b64encode (utf8.encode value)

  -- None is a `ValueError`: a cursor that is no base64, or whose bytes are no UTF-8.
  unfoldable pub decode_cursor : List ℕ → Option String
  unfolding decode_from
  decode_cursor cursor = elim (decode_from first 0 cursor) [
    | none ↦ none
    | some bytes ↦ utf8.decode bytes
  ]

-- The limit of `get_pagination`; none is FastAPI's refusal.
unfoldable pub page_limit : ℕ → Option ℕ
page_limit limit = if leb 1 limit && leb limit 100 then some (min limit 100) else none
