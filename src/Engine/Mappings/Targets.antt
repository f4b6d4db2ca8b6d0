-- ===== src/Engine/Mappings/Targets.antt =====
-- What the labels are mapped to, and the order of Pave's tags.
use thryve_financial.Base.{
  ◌≡◌, All, ◌⊎◌, inr, refl, String, Bool, true, false, not, Option, none, some, List, [], ◌∷◌, ◌++◌,
  ◌&&◌, Dict, item, is_some, select, arith, if◌then◌else◌, ◌∙◌, ap,
}
use thryve_financial.Engine.Taxonomy.Registry.{is_valid_category}
use thryve_financial.Engine.Mappings.Plaid.{plaid_detailed_to_internal}
use thryve_financial.Engine.Mappings.Pave.{pave_tag_to_internal}
use thryve_financial.Engine.Mappings.Resolve.{
  mapped, is_generic, resolve_specific, resolve_any, resolve_pave_tags,
}

-- A target is missing or passes a test.
abbrev passes : (String → String → Bool) → Option (String × String) → Bool
passes test none = true
passes test (some (p, s)) = test p s

abbrev all_pass : (String → String → Bool) → Dict (String × String) → Bool
all_pass test [] = true
all_pass test ((label, (p, s)) ∷ rest) = test p s && all_pass test rest

item-all_pass :
    (test : String → String → Bool) (table : Dict (String × String)) (label : String)
    → all_pass test table ≡ true
    → passes test (item table label) ≡ true
unfolding item
item-all_pass test [] label h = refl
item-all_pass test ((name, (p, s)) ∷ rest) label h = ground (arith, item-all_pass test rest label)

-- A target is missing or a valid category.
abbrev pub is_valid_target : Option (String × String) → Bool
is_valid_target target = passes is_valid_category target

-- Every Plaid name that the table has is mapped to a category of the taxonomy.
pub plaid_target_valid :
    (name : String) → is_valid_target (item plaid_detailed_to_internal name) ≡ true
plaid_target_valid name = item-all_pass is_valid_category plaid_detailed_to_internal name refl

mapped_valid : (tag : String) → is_valid_target (mapped tag) ≡ true
unfolding mapped
mapped_valid tag = item-all_pass is_valid_category pave_tag_to_internal tag refl

-- The tags in the order in which they are tried.
abbrev pub tried : List String → List String
tried tags = select (λ t. not (is_generic t)) tags ++ tags

-- The first target of tags.
abbrev pub first_target : List String → Option (String × String)
first_target [] = none
first_target (tag ∷ tags) = elim (mapped tag) [
  | some target ↦ some target
  | none ↦ first_target tags
]

first_target-append :
    (xs ys : List String)
    → first_target (xs ++ ys)
      ≡ (elim (first_target xs) [ some target ↦ some target | none ↦ first_target ys ])
first_target-append [] ys = refl
first_target-append (x ∷ xs) ys = ground (arith, first_target-append xs ys)

resolve_any-first : (tags : List String) → resolve_any tags ≡ first_target tags
unfolding resolve_any
resolve_any-first [] = refl
resolve_any-first (tag ∷ tags) = ground (arith, resolve_any-first tags)

resolve_specific-first :
    (tags : List String)
    → resolve_specific tags ≡ first_target (select (λ t. not (is_generic t)) tags)
unfolding resolve_specific
resolve_specific-first [] = refl
resolve_specific-first (tag ∷ tags) = specific_step (is_generic tag) (resolve_specific-first tags)
  where
    specific_step :
        (b : Bool)
        → resolve_specific tags ≡ first_target (select (λ t. not (is_generic t)) tags)
        → (if not b && is_some (mapped tag) then mapped tag else resolve_specific tags)
          ≡ first_target (
              if not b
              then tag ∷ select (λ t. not (is_generic t)) tags
              else select (λ t. not (is_generic t)) tags)
    specific_step true h = h
    specific_step false h = ground (arith, h)

-- The two passes give the first mapped tag of those not generic, followed by all.
pub resolve_pave_tags-first :
    (tags : List String) → resolve_pave_tags tags ≡ first_target (tried tags)
unfolding resolve_pave_tags
resolve_pave_tags-first tags = ground (
  arith,
  resolve_any-first tags,
  resolve_specific-first tags,
  first_target-append (select (λ t. not (is_generic t)) tags) tags,
)

passes-else :
    (o rest : Option (String × String))
    → is_valid_target o ≡ true
    → is_valid_target rest ≡ true
    → is_valid_target (elim o [ some target ↦ some target | none ↦ rest ]) ≡ true
passes-else none rest h k = k
passes-else (some target) rest h k = h

first_target_valid : (tags : List String) → is_valid_target (first_target tags) ≡ true
first_target_valid [] = refl
first_target_valid (tag ∷ tags) =
    passes-else (mapped tag) (first_target tags) (mapped_valid tag) (first_target_valid tags)

first_target-none :
    (tags : List String) → (is_some (first_target tags) ≡ true) ⊎ All (λ t. mapped t ≡ none) tags
first_target-none [] = inr tt
first_target-none (tag ∷ tags) = ground (arith, first_target-none tags)

-- The tags of a transaction resolve to nothing or to a category of the taxonomy, and to nothing
-- only if no tag is in the table.
pub resolved_target_valid :
    (tags : List String)
    → (is_valid_target (resolve_pave_tags tags) ≡ true)
      × ((is_some (resolve_pave_tags tags) ≡ true) ⊎ All (λ t. mapped t ≡ none) tags)
resolved_target_valid tags = (
  ap is_valid_target (resolve_pave_tags-first tags) ∙ first_target_valid (tried tags),
  ground (
    arith,
    first_target-none tags,
    resolve_pave_tags-first tags,
    first_target-append (select (λ t. not (is_generic t)) tags) tags,
  ),
)
