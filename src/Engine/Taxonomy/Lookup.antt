-- ===== src/Engine/Taxonomy/Lookup.antt =====
-- The lookups of the taxonomy agree with each other.
use thryve_financial.Base.{
  ◌≡◌, select, refl, String, Bool, true, false, Option, none, some, List, [], ◌∷◌, ◌++◌, map, ◌==◌,
  ◌&&◌, ◌||◌, Dict, item, is_some, arith, eq_iff, elem, if◌then◌else◌, first,
}
use thryve_financial.Engine.Taxonomy.{PrimaryCategory, SubCategory, get_sub, sub_ids}
use thryve_financial.Engine.Taxonomy.Registry.{
  all_categories, category_by_id, sub_pairs, has_pair, is_valid_category, get_category, is_spend,
  is_spend_type, spend_categories,
}

has_pair-append :
    (p s : String) (xs ys : List (String × String))
    → has_pair p s (xs ++ ys) ≡ (has_pair p s xs || has_pair p s ys)
has_pair-append p s [] ys = refl
has_pair-append p s ((q, t) ∷ xs) ys = ground (arith, has_pair-append p s xs ys)

-- The pairs of one category.
has_pair-map :
    (k p s : String) (subs : List SubCategory)
    → has_pair p s (map (λ t. (k, t)) (map (λ x. x.id) subs))
      ≡ (k == p && is_some (first (λ x. x.id == s) subs))
has_pair-map k p s [] = ground arith
has_pair-map k p s (x ∷ subs) = ground (arith, has_pair-map k p s subs)

-- The registry's dictionary, of categories with different ids.
abbrev keyed : List PrimaryCategory → Dict PrimaryCategory
keyed [] = []
keyed (c ∷ cs) = (c.id, c) ∷ keyed cs

abbrev has_sub : String → Option PrimaryCategory → Bool
has_sub s none = false
has_sub s (some c) = is_some (get_sub c s)

abbrev are_distinct : List PrimaryCategory → Bool
are_distinct [] = true
are_distinct (c ∷ cs) = (if elem c.id (map (λ d. d.id) cs) then false else true) && are_distinct cs

has_pair-absent :
    (p s : String) (cs : List PrimaryCategory)
    → elem p (map (λ d. d.id) cs) ≡ false
    → has_pair p s (sub_pairs cs) ≡ false
has_pair-absent p s [] absent = refl
has_pair-absent p s (c ∷ cs) absent = ground (
  arith,
  has_pair-absent p s cs,
  has_pair-append p s (map (λ t. (c.id, t)) (sub_ids c)) (sub_pairs cs),
  has_pair-map c.id p s c.sub_categories,
)

has_pair-item :
    (p s : String) (cs : List PrimaryCategory)
    → are_distinct cs ≡ true
    → has_pair p s (sub_pairs cs) ≡ has_sub s (item (keyed cs) p)
unfolding item
has_pair-item p s [] distinct = refl
has_pair-item p s (c ∷ cs) distinct = ground (
  arith,
  has_pair-item p s cs,
  has_pair-absent p s cs,
  eq_iff c.id p,
  has_pair-append p s (map (λ t. (c.id, t)) (sub_ids c)) (sub_pairs cs),
  has_pair-map c.id p s c.sub_categories,
)

-- A pair of ids is valid exactly when the category looked up by the first has a sub-category with
-- the second.
pub valid_category_lookup :
    (primary_id sub_id : String)
    → is_valid_category primary_id sub_id
      ≡ (elim (get_category primary_id) [ none ↦ false | some c ↦ is_some (get_sub c sub_id) ])
unfolding get_category category_by_id
valid_category_lookup p s = has_pair-item p s all_categories refl

abbrev spend_ids : List PrimaryCategory → List String
spend_ids cs = map (λ c. c.id) (select (λ c. is_spend_type c.spend_type) cs)

abbrev counts_as_spend : Option PrimaryCategory → Bool
counts_as_spend none = false
counts_as_spend (some c) = is_spend_type c.spend_type

spend_ids-absent :
    (p : String) (cs : List PrimaryCategory)
    → elem p (map (λ d. d.id) cs) ≡ false
    → elem p (spend_ids cs) ≡ false
spend_ids-absent p [] absent = refl
spend_ids-absent p (c ∷ cs) absent = ground (arith, spend_ids-absent p cs)

spend_ids-item :
    (p : String) (cs : List PrimaryCategory)
    → are_distinct cs ≡ true
    → counts_as_spend (item (keyed cs) p) ≡ elem p (spend_ids cs)
unfolding item
spend_ids-item p [] distinct = refl
spend_ids-item p (c ∷ cs) distinct =
    ground (arith, spend_ids-item p cs, spend_ids-absent p cs, eq_iff c.id p)

-- A primary id counts as spend exactly when it is one of the spend categories' ids.
pub is_spend_lem :
    (primary_id : String) → is_spend primary_id ≡ elem primary_id (map (λ c. c.id) spend_categories)
unfolding is_spend category_by_id
is_spend_lem p = spend_ids-item p all_categories refl
