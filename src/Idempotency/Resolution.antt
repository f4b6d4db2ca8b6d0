-- ===== src/Idempotency/Resolution.antt =====
-- pfm/app/core/idempotency.py: the gate of a mutation route, and the key and the scope that
-- `_resolve_idempotency_request` takes from a request. Idempotency/Fingerprint.antt has the rest of it.
pub mod Isolation
mod Tests
use thryve_financial.Base.{
  String, Bool, true, false, not, Option, none, some, List, [], ◌∷◌, ◌&&◌, elem, truthy, or_text,
  if◌then◌else◌,
}
use thryve_financial.Idempotency.Types.{IdempotencyScope, IdempotencyScopeKind, user, anonymous}

-- A parameter of the path, as text, or of the query.
pub record Parameter : Type 0 where
  pub key : String
  pub value : String

-- What is read of a request: its method in upper case, the `Idempotency-Key` header, the two
-- ids that the middleware sets, the path of its route, or of its URL where it has none, the name of
-- its route, the parameters, the `Content-Type` header, empty if missing, and the bytes of its
-- body, as characters of those numbers.
pub record MutationRequest : Type 0 where
  pub method : String
  pub idempotency_key : Option String
  pub user_id : Option String
  pub anonymous_id : Option String
  pub route_path : String
  pub route_name : Option String
  pub path_params : List Parameter
  pub query_params : List Parameter
  pub content_type : String
  pub body : String

pub data Refusal : Type 0 where
  key_required scope_required : Refusal

pub data Resolution : Type 0 where
  resolved_to : String → IdempotencyScope → Resolution
  not_resolved : Refusal → Resolution

-- `_MUTATION_METHODS`
abbrev pub mutation_methods : List String
mutation_methods = "POST" ∷ "PUT" ∷ "PATCH" ∷ "DELETE" ∷ []

-- The route handler: whether the original handler runs.
abbrev pub passes_gate : Bool → MutationRequest → Bool
passes_gate skips r =
    not (elem r.method mutation_methods && not skips && not (truthy r.idempotency_key))

-- The text of an optional text that is neither missing nor empty.
abbrev pub text_of : Option String → String
text_of none = ""
text_of (some s) = s

unfoldable pub resolve_scope : MutationRequest → Resolution
resolve_scope r =
    if not (truthy r.idempotency_key)
    then not_resolved key_required
    else if truthy r.user_id
    then resolved_to (text_of r.idempotency_key)
        (record { kind = user; subject = text_of r.user_id })
    else if not (truthy r.anonymous_id)
    then not_resolved scope_required
    else resolved_to (text_of r.idempotency_key)
        (record { kind = anonymous; subject = text_of r.anonymous_id })
