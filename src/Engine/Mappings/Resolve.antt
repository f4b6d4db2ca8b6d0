-- ===== src/Engine/Mappings/Resolve.antt =====
-- pfm/app/engine/mappings.py: the resolution of several Pave tags.
use thryve_financial.Base.{
  String, Bool, not, ◌&&◌, Option, none, some, List, [], ◌∷◌, elem, item, is_some, if◌then◌else◌,
}
use thryve_financial.Engine.Mappings.Pave.{pave_tag_to_internal, pave_generic_tags}

unfoldable pub mapped : String → Option (String × String)
unfolding item
mapped tag = item pave_tag_to_internal tag

abbrev pub is_generic : String → Bool
is_generic tag = elem tag pave_generic_tags

-- The first pass, without the generic tags.
unfoldable pub resolve_specific : List String → Option (String × String)
resolve_specific [] = none
resolve_specific (tag ∷ tags) =
    let rest = resolve_specific tags in
    if not (is_generic tag) && is_some (mapped tag) then mapped tag else rest

-- The second pass.
unfoldable pub resolve_any : List String → Option (String × String)
resolve_any [] = none
resolve_any (tag ∷ tags) =
    let rest = resolve_any tags in if is_some (mapped tag) then mapped tag else rest

unfoldable pub resolve_pave_tags : List String → Option (String × String)
unfolding resolve_specific resolve_any
resolve_pave_tags tags = elim (resolve_specific tags) [
  | some target ↦ some target
  | none ↦ resolve_any tags
]
