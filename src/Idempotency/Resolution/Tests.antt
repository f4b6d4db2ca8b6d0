-- ===== src/Idempotency/Resolution/Tests.antt =====
-- Scopes of small requests.
use thryve_financial.Base.{◌≡◌, refl, false, [], none, some}
use thryve_financial.Idempotency.Types.{IdempotencyScope, user}
use thryve_financial.Idempotency.Resolution.{
  MutationRequest, not_resolved, scope_required, resolve_scope, passes_gate,
}

abbrev ada : MutationRequest
ada = record {
  method = "POST";
  idempotency_key = some "k";
  user_id = some "ada";
  anonymous_id = some "a";
  route_path = "/import";
  route_name = none;
  path_params = [];
  query_params = [];
  content_type = "";
  body = "";
}

abbrev other_key : MutationRequest
other_key = record ada { idempotency_key = some "l" }

abbrev scope : IdempotencyScope
scope = record { kind = user; subject = "ada" }

nobody :
    resolve_scope (record ada { user_id = none; anonymous_id = some "" })
    ≡ not_resolved scope_required
unfolding resolve_scope
nobody = refl

gate : passes_gate false (record ada { idempotency_key = none }) ≡ false
gate = refl
