-- ===== src/Problem/Laws.antt =====
-- What a built problem carries.
use thryve_financial.Base.{
  ℕ, ◌≡◌, refl, String, Bool, true, false, Option, none, some, List, [], ◌∷◌, ◌&&◌, Dict, item,
  set_item, item-set_item, is_some, arith, eq_iff, eqb, if◌then◌else◌,
}
use thryve_financial.Problem.{
  ProblemClass, BuildArguments, Problem, unset, build, built, given, is_allowed, update,
}
use thryve_financial.Problem.Registry.{status_mapping, class_for, from_status, problem_for_status}

-- The headers of a call come in with different names.
abbrev pub are_distinct : Dict String → Bool
are_distinct [] = true
are_distinct ((key, value) ∷ rest) = if is_some (item rest key) then false else are_distinct rest

update-item :
    (d other : Dict String) (key : String)
    → are_distinct other ≡ true
    → item (update d other) key
      ≡ (elim (item other key) [ some value ↦ some value | none ↦ item d key ])
unfolding update item
update-item d [] key distinct = refl
update-item d ((name, value) ∷ rest) key distinct = ground (
  arith,
  update-item (set_item d name value) rest key,
  item-set_item d name key value,
  eq_iff name key,
)

-- A problem that is built carries the headers of the call, with its class's default for each name
-- that the call does not give, if the call names no header twice.
pub build_headers :
    (c : ProblemClass) (a : BuildArguments) (p : Problem) (key : String)
    → build c a ≡ some p
    → are_distinct (given a.headers []) ≡ true
    → item p.headers key ≡ (elim (item (given a.headers []) key) [
      | some value ↦ some value
      | none ↦ item c.default_headers key
    ])
unfolding build
build_headers c a p key h distinct =
    ground (arith, update-item c.default_headers (given a.headers []) key distinct)

-- A class of the mapping, or none, for a status.
abbrev HasStatus : ℕ → Option ProblemClass → Type 0
HasStatus status none = Unit {0}
HasStatus status (some c) =
    (c.status ≡ status) × (is_allowed c.default_user_action c.allowed_user_actions ≡ true)

abbrev is_mapping : List (ℕ × ProblemClass) → Bool
is_mapping [] = true
is_mapping ((code, c) ∷ rest) =
    eqb c.status code && is_allowed c.default_user_action c.allowed_user_actions && is_mapping rest

class_for-HasStatus :
    (mapping : List (ℕ × ProblemClass)) (status : ℕ)
    → is_mapping mapping ≡ true
    → HasStatus status (class_for mapping status)
class_for-HasStatus [] status valid = tt
class_for-HasStatus ((code, c) ∷ rest) status valid =
    ground (arith, class_for-HasStatus rest status)

-- For every HTTP status there is a problem, and it has that status.
pub problem_for_status_lem :
    (phrases : ℕ → Option String) (status : ℕ) (detail : Option String)
    (headers : Option (Dict String))
    → (p : Problem) × (problem_for_status phrases status detail headers ≡ some p)
      × (p.status ≡ status)
unfolding problem_for_status
problem_for_status_lem phrases status detail headers =
    class_problem (class_for status_mapping status) (class_for-HasStatus status_mapping status refl)
  where
    class_problem :
        (o : Option ProblemClass)
        → HasStatus status o
        → (p : Problem) × ((elim o [
          | none ↦ from_status phrases status detail headers
          | some c ↦ build c (record unset { detail = detail; headers = headers })
        ])
            ≡ some p)
          × (p.status ≡ status)
    class_problem none h = (_, refl, refl)
    class_problem (some c) h =
        (built c (record unset { detail = detail; headers = headers }), ground (arith, h), h.0)
