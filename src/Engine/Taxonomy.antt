-- ===== src/Engine/Taxonomy.antt =====
-- pfm/app/engine/taxonomy.py: the categories and their lookups. A set is the list of its members.
pub mod Categories
pub mod Registry
pub mod Lookup
use thryve_financial.Base.{String, Option, List, first, ◌==◌, map}

pub data SpendType : Type 0 where
  spend non_spend : SpendType

pub record SubCategory : Type 0 where
  pub id : String
  pub name : String
  pub examples : List String

pub record PrimaryCategory : Type 0 where
  pub id : String
  pub name : String
  pub spend_type : SpendType
  pub sub_categories : List SubCategory

abbrev pub get_sub : PrimaryCategory → String → Option SubCategory
get_sub c sub_id = first (λ s. s.id == sub_id) c.sub_categories

abbrev pub sub_ids : PrimaryCategory → List String
sub_ids c = map (λ s. s.id) c.sub_categories
