-- ===== src/Engine/Taxonomy/Registry.antt =====
-- pfm/app/engine/taxonomy.py: the registry of the categories and its lookups.
use thryve_financial.Base.{
  if◌then◌else◌, String, Bool, true, false, Option, none, some, List, [], ◌∷◌, ◌++◌, map, select,
  ◌==◌, ◌&&◌, ◌||◌, Dict, item, set_item,
}
use thryve_financial.Engine.Taxonomy.{PrimaryCategory, SpendType, spend, non_spend, sub_ids}
use thryve_financial.Engine.Taxonomy.Categories.{
  food_and_dining, shopping, transportation, bills, entertainment, gambling, health, personal_care,
  travel, education, transfers, debt_and_loans, income, other,
}

abbrev pub all_categories : List PrimaryCategory
all_categories =
    food_and_dining ∷ shopping ∷ transportation ∷ bills ∷ entertainment ∷ gambling ∷ health
    ∷ personal_care ∷ travel ∷ education ∷ transfers ∷ debt_and_loans ∷ income ∷ other ∷ []

abbrev pub is_spend_type : SpendType → Bool
is_spend_type spend = true
is_spend_type non_spend = false

abbrev pub spend_categories : List PrimaryCategory
spend_categories = select (λ c. is_spend_type c.spend_type) all_categories

abbrev pub non_spend_categories : List PrimaryCategory
non_spend_categories =
    select (λ c. if is_spend_type c.spend_type then false else true) all_categories

-- `{c.id: c for c in …}`, which adds to a dictionary in the order of the list.
unfoldable pub by_id : Dict PrimaryCategory → List PrimaryCategory → Dict PrimaryCategory
unfolding set_item
by_id d [] = d
by_id d (c ∷ cs) = by_id (set_item d c.id c) cs

unfoldable pub category_by_id : Dict PrimaryCategory
unfolding by_id
category_by_id = by_id [] all_categories

abbrev pub all_primary_ids : List String
all_primary_ids = map (λ c. c.id) all_categories

-- `(c.id, s.id)` for the categories and their sub-categories.
abbrev pub sub_pairs : List PrimaryCategory → List (String × String)
sub_pairs [] = []
sub_pairs (c ∷ cs) = map (λ s. (c.id, s)) (sub_ids c) ++ sub_pairs cs

abbrev pub all_sub_ids : List (String × String)
all_sub_ids = sub_pairs all_categories

abbrev pub has_pair : String → String → List (String × String) → Bool
has_pair p s [] = false
has_pair p s ((q, t) ∷ rest) = (q == p && t == s) || has_pair p s rest

abbrev pub is_valid_category : String → String → Bool
is_valid_category primary_id sub_id = has_pair primary_id sub_id all_sub_ids

unfoldable pub get_category : String → Option PrimaryCategory
unfolding category_by_id item
get_category primary_id = item category_by_id primary_id

unfoldable pub is_spend : String → Bool
unfolding get_category
is_spend primary_id = elim (get_category primary_id) [
  | none ↦ false
  | some c ↦ is_spend_type c.spend_type
]
