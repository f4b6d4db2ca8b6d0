-- ===== src/Redis/Keys.antt =====
-- pfm/app/db/redis.py: how a key is put together.
use Prim.Native.Char.{code}
use Prim.Native.String.{◌++◌}
use thryve_financial.Base.{String, List, [], ◌∷◌, eqb, ◌==◌, if◌then◌else◌}

-- `part.strip(":")`, at its start and at its end.
unfoldable left_stripped : String → String
left_stripped String.[] = ""
left_stripped (String.◌∷◌ c s) =
    let rest = left_stripped s in if eqb (code c) 58 then rest else String.◌∷◌ c s

unfoldable right_stripped : String → String
right_stripped String.[] = ""
right_stripped (String.◌∷◌ c s) = elim (right_stripped s) [
  | String.[] ↦ if eqb (code c) 58 then "" else String.◌∷◌ c String.[]
  | String.◌∷◌ d rest ↦ String.◌∷◌ c (String.◌∷◌ d rest)
]

unfoldable pub strip_colons : String → String
unfolding left_stripped right_stripped
strip_colons s = left_stripped (right_stripped s)

-- The parts that are not empty, stripped; a part of colons only stays, and is empty then.
unfoldable pub key_parts : List String → List String
unfolding strip_colons
key_parts [] = []
key_parts (part ∷ parts) =
    let rest = key_parts parts in if part == "" then rest else strip_colons part ∷ rest

unfoldable join_colons : List String → String
join_colons [] = ""
join_colons (s ∷ []) = s
join_colons (s ∷ t ∷ rest) = s ++ ":" ++ join_colons (t ∷ rest)

-- `RedisService.key`
unfoldable pub key_of : List String → String
unfolding key_parts join_colons
key_of parts = join_colons (key_parts parts)
