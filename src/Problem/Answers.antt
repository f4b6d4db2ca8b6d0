-- ===== src/Problem/Answers.antt =====
-- What the service answers with where it raises.
use thryve_financial.Base.{
  ℕ, ◌≡◌, refl, ap, ◌∙◌, sym, ◌⊎◌, inl, inr, String, Bool, true, false, ◌&&◌, Option, none, some,
  List, [], ◌∷◌, ◌==◌, Dict, item, set_item, item-set_item, arith, eq_refl, if◌then◌else◌,
}
use thryve_financial.Problem.{
  ProblemClass, ProblemDefinition, BuildArguments, Problem, definition, unset, build, built,
}
use thryve_financial.Problem.Classes.{unsupported_media_type_error}
use thryve_financial.Problem.Registry.{problem_types, by_slug, problem_definitions}
use thryve_financial.Problem.Laws.{problem_for_status_lem}
use thryve_financial.Problem.Response.{
  Surroundings, ProblemDefinitionResponse, definition_payload, problem_type_url,
  build_problem_document, problem_response, problem_definition_payload,
}
use thryve_financial.Problem.Handlers.{
  Cases, RequestHead, ValidationItem, Exception, raised_problem, request_validation_error,
  http_exception, unhandled, is_unsupported, Part, any_body_related, is_body_related, is_body_part,
  any_json_invalid, malformed, from_errors, validation_problem, validation_problem_for_request,
  handled_problem,
}

-- The class is one of the list.
abbrev pub IsRegistered : ProblemClass → List ProblemClass → Type 0
IsRegistered c [] = ⊥
IsRegistered c (d ∷ ds) = (c ≡ d) ⊎ IsRegistered c ds

-- No class of the list has the slug.
abbrev is_free : String → List ProblemClass → Bool
is_free slug [] = true
is_free slug (d ∷ ds) = if d.type_slug == slug then false else is_free slug ds

abbrev are_distinct : List ProblemClass → Bool
are_distinct [] = true
are_distinct (d ∷ ds) = is_free d.type_slug ds && are_distinct ds

item-by_slug_free :
    (acc : Dict ProblemDefinition) (cs : List ProblemClass) (slug : String)
    → is_free slug cs ≡ true
    → item (by_slug acc cs) slug ≡ item acc slug
unfolding by_slug
item-by_slug_free acc [] slug free = refl
item-by_slug_free acc (c ∷ cs) slug free = ground (
  arith,
  item-by_slug_free (set_item acc c.type_slug (definition c)) cs slug,
  item-set_item acc c.type_slug slug (definition c),
)

item-by_slug :
    (acc : Dict ProblemDefinition) (cs : List ProblemClass) (c : ProblemClass)
    → are_distinct cs ≡ true
    → IsRegistered c cs
    → item (by_slug acc cs) c.type_slug ≡ some (definition c)
unfolding by_slug
item-by_slug acc [] c distinct known = absurd known
item-by_slug acc (d ∷ ds) c distinct (inl same) = ground (
  arith,
  item-by_slug_free (set_item acc d.type_slug (definition d)) ds c.type_slug,
  item-set_item acc d.type_slug c.type_slug (definition d),
  eq_refl c.type_slug,
  ap (λ x. x.type_slug) same,
  ap definition same,
)
item-by_slug acc (d ∷ ds) c distinct (inr later) =
    ground (arith, item-by_slug (set_item acc d.type_slug (definition d)) ds c)

registered_definition :
    (c : ProblemClass)
    → IsRegistered c problem_types
    → item problem_definitions c.type_slug ≡ some (definition c)
unfolding problem_definitions
registered_definition c known = item-by_slug [] problem_types c refl known

-- What a problem takes from its class where the call gives nothing.
abbrev TakesClass : ProblemClass → Problem → Type 0
TakesClass c p =
    (p.type_slug ≡ c.type_slug) × (p.status ≡ c.status) × (p.title ≡ c.title) × (p.code ≡ c.code)

build-TakesClass :
    (c : ProblemClass) (a : BuildArguments) (p : Problem)
    → a.type_slug ≡ none
    → a.status ≡ none
    → a.title ≡ none
    → a.code ≡ none
    → build c a ≡ some p
    → TakesClass c p
unfolding build
build-TakesClass c a p slug status title code built_p = ground arith

served :
    (s : Surroundings) (c : ProblemClass) (o : Option ProblemDefinition)
    → o ≡ some (definition c)
    → (d : ProblemDefinitionResponse) × (definition_payload s o ≡ some d)
      × (d.type_url ≡ problem_type_url s c.type_slug)
      × (d.status ≡ c.status)
      × (d.title ≡ c.title)
      × (d.code ≡ c.code)
served s c none known = ground arith
served s c (some e) known = (_, refl, ground arith, ground arith, ground arith, ground arith)

-- The type URL of a problem is served: a problem that is built from a registered class, under the
-- class's slug, status, title and code, has the type URL of the definition that the service gives for
-- its slug, and the definition has its status, title and code.
pub problem_types_served :
    (s : Surroundings) (c : ProblemClass) (a : BuildArguments) (p : Problem)
    → IsRegistered c problem_types
    → a.type_slug ≡ none
    → a.status ≡ none
    → a.title ≡ none
    → a.code ≡ none
    → build c a ≡ some p
    → (d : ProblemDefinitionResponse) × (problem_definition_payload s p.type_slug ≡ some d)
      × (d.type_url ≡ (problem_response s p).content.type_url)
      × (d.status ≡ (problem_response s p).status_code)
      × (d.title ≡ (problem_response s p).content.title)
      × (d.code ≡ (problem_response s p).content.code)
unfolding problem_definition_payload problem_response build_problem_document
problem_types_served s c a p known slug status title code built_p =
    let own = build-TakesClass c a p slug status title code built_p in
    let found =
      served s c (item problem_definitions p.type_slug)
        (ap (item problem_definitions) own.0 ∙ registered_definition c known) in
    (
      found.0,
      found.1,
      found.2 ∙ ap (problem_type_url s) (sym own.0),
      found.3 ∙ sym own.1,
      found.4 ∙ sym own.2,
      found.5 ∙ sym own.3,
    )

-- The locations of the items are not empty.
abbrev pub are_located : List ValidationItem → Bool
are_located [] = true
are_located (i ∷ is) = elim i.loc [
  | none ↦ are_located is
  | some [] ↦ false
  | some (p ∷ ps) ↦ are_located is
]

abbrev pub IsLocated : Exception → Type 0
IsLocated (request_validation_error items) = are_located items ≡ true
IsLocated (raised_problem p) = Unit
IsLocated (http_exception status detail headers) = Unit
IsLocated unhandled = Unit

-- The status that an exception is answered with: 400, 415 or 422 for a request that is not valid.
abbrev pub IsAnsweredWith : Exception → ℕ → Type 0
IsAnsweredWith (raised_problem p) status = status ≡ p.status
IsAnsweredWith (http_exception code detail headers) status = status ≡ code
IsAnsweredWith unhandled status = status ≡ 500
IsAnsweredWith (request_validation_error items) status =
    if any_json_invalid items then status ≡ 400 else ((status ≡ 415) ⊎ (status ≡ 422))

any_body_related-located :
    (items : List ValidationItem)
    → are_located items ≡ true
    → (related : Bool) × (any_body_related items ≡ some related)
unfolding any_body_related
any_body_related-located [] located = (false, refl)
any_body_related-located (i ∷ is) located = by_item i.loc located (any_body_related-located is)
  where
    by_item :
        (loc : Option (List Part))
        → (elim loc [ none ↦ are_located is | some [] ↦ false | some (p ∷ ps) ↦ are_located is ])
          ≡ true
        → (are_located is ≡ true → (related : Bool) × (any_body_related is ≡ some related))
        → (related : Bool) × ((elim (is_body_related loc) [
          | none ↦ none
          | some true ↦ some true
          | some false ↦ any_body_related is
        ])
            ≡ some related)
    by_item none ok rest = rest ok
    by_item (some []) ok rest = ground arith
    by_item (some (p ∷ ps)) ok rest = by_part (is_body_part p) (rest ok)
      where
        by_part :
            (b : Bool)
            → (related : Bool) × (any_body_related is ≡ some related)
            → (related : Bool) × ((elim b [ true ↦ some true | false ↦ any_body_related is ])
                ≡ some related)
        by_part true rest = (true, refl)
        by_part false rest = rest

-- The problem of the items is one of the three.
validation_answered :
    (cases : Cases) (r : RequestHead) (s : Surroundings) (items : List ValidationItem)
    (invalid : Bool) (o : Option Bool)
    → (related : Bool) × (o ≡ some related)
    → (p : Problem) × ((if invalid
          then some (malformed items)
          else validation_problem cases r items o)
        ≡ some p)
      × (if invalid then p.status ≡ 400 else ((p.status ≡ 415) ⊎ (p.status ≡ 422)))
      × ((build_problem_document s p).status ≡ p.status)
unfolding build_problem_document
validation_answered cases r s items true o found = (malformed items, refl, refl, refl)
validation_answered cases r s items false none found = ground arith
validation_answered cases r s items false (some b) found = by_media (is_unsupported cases r b)
  where
    by_media :
        (u : Bool)
        → (p : Problem) × ((if u
              then some (built unsupported_media_type_error unset)
              else some (from_errors items))
            ≡ some p)
          × ((p.status ≡ 415) ⊎ (p.status ≡ 422))
          × ((build_problem_document s p).status ≡ p.status)
    by_media true = (_, refl, inl refl, refl)
    by_media false = (from_errors items, refl, inr refl, refl)

-- Each exception whose items, if it is of a request that is not valid, are at a place in the request
-- has a problem, and the response and its document have the status that the exception asks for.
pub exceptions_answered :
    (cases : Cases) (phrases : ℕ → Option String) (r : RequestHead) (s : Surroundings)
    (e : Exception)
    → IsLocated e
    → (p : Problem) × (handled_problem cases phrases r e ≡ some p)
      × IsAnsweredWith e (problem_response s p).status_code
      × ((problem_response s p).content.status ≡ (problem_response s p).status_code)
unfolding handled_problem validation_problem_for_request problem_response build_problem_document
exceptions_answered cases phrases r s (raised_problem p) located = (p, refl, refl, refl)
exceptions_answered cases phrases r s unhandled located = (_, refl, refl, refl)
exceptions_answered cases phrases r s (http_exception status detail headers) located =
    let found = problem_for_status_lem phrases status detail headers in
    (found.0, found.1, found.2, refl)
exceptions_answered cases phrases r s (request_validation_error items) located =
    validation_answered cases r s items (any_json_invalid items) (any_body_related items)
      (any_body_related-located items located)
