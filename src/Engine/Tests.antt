-- ===== src/Engine/Tests.antt =====
-- The taxonomy at small inputs.
use thryve_financial.Base.{◌≡◌, ◌⊎◌, refl, true, none, some, [], ◌∷◌, All, elem, is_some, map}
use thryve_financial.Engine.Taxonomy.Registry.{is_spend, spend_categories}
use thryve_financial.Engine.Taxonomy.Lookup.{is_spend_lem}
use thryve_financial.Engine.Mappings.Targets.{is_valid_target, resolved_target_valid}
use thryve_financial.Engine.Mappings.Merchants.{is_ewa_merchant}
use thryve_financial.Engine.Mappings.Resolve.{mapped, resolve_pave_tags}

spends_income : is_spend "income" ≡ elem "income" (map (λ c. c.id) spend_categories)
spends_income = is_spend_lem "income"

resolved :
    resolve_pave_tags ("Miscellaneous" ∷ "Cafe" ∷ []) ≡ some ("food_and_dining", "coffee_shops")
unfolding resolve_pave_tags mapped
resolved = refl

dave : is_ewa_merchant (λ c. c ∷ []) "DAVE inc" ≡ true
unfolding is_ewa_merchant
dave = refl

resolved_target_valid_example :
    (is_valid_target (resolve_pave_tags ("Retail" ∷ [])) ≡ true)
    × ((is_some (resolve_pave_tags ("Retail" ∷ [])) ≡ true)
        ⊎ All (λ t. mapped t ≡ none) ("Retail" ∷ []))
resolved_target_valid_example = resolved_target_valid ("Retail" ∷ [])
