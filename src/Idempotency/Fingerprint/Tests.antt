-- ===== src/Idempotency/Fingerprint/Tests.antt =====
-- Fingerprints of a small request and of a retry that writes it differently.
use thryve_financial.Base.{◌≡◌, refl, inr, none, some, [], ◌∷◌, ◌==◌, ◌||◌, ℕ, if◌then◌else◌}
use mathlib.Core.List.{Perm}
use mathlib.Core.List.Perm
use thryve_financial.Idempotency.Types.{IdempotencyScope, user}
use thryve_financial.Idempotency.Resolution.{MutationRequest, Parameter}
use thryve_financial.Idempotency.Resolution.Isolation.{IsSame}
use thryve_financial.Idempotency.Fingerprint.{
  Codecs, canonical_json_text, endpoint_of, media_type, is_json_type, body_digest,
  fingerprint_payload, normalize_query_params, resolve_request,
}
use thryve_financial.Idempotency.Fingerprint.Reorder.{IsSameCall, resolved_alike}
use thryve_financial.Idempotency.Fingerprint.Separate.{payload_separates}

-- A codec that reads two ways to write one object.
abbrev pub codec : Codecs ℕ
codec = record {
  lower = λ s. s;
  sha256 = λ s. s;
  loads = λ s. if (s == "{\"a\":1}") || (s == "{ \"a\": 1 }") then some 1 else none;
  dumps = λ n. some "{\"a\":1}";
  dumps_payload = λ p. p.body_digest;
}

abbrev pub a_1 : Parameter
a_1 = record { key = "a"; value = "1" }

abbrev pub b_2 : Parameter
b_2 = record { key = "b"; value = "2" }

abbrev pub import_call : MutationRequest
import_call = record {
  method = "POST";
  idempotency_key = some "k";
  user_id = some "ada";
  anonymous_id = none;
  route_path = "/import";
  route_name = some "import";
  path_params = [];
  query_params = b_2 ∷ a_1 ∷ [];
  content_type = "application/json; charset=utf-8";
  body = "{ \"a\": 1 }";
}

abbrev pub retry : MutationRequest
retry = record import_call {
  query_params = a_1 ∷ b_2 ∷ [];
  content_type = "application/json";
  body = "{\"a\":1}";
}

abbrev pub ada_scope : IdempotencyScope
ada_scope = record { kind = user; subject = "ada" }

sorted_query : normalize_query_params import_call ≡ a_1 ∷ b_2 ∷ []
unfolding normalize_query_params
sorted_query = refl

named_endpoint : endpoint_of none import_call ≡ "POST:/import:import"
unfolding endpoint_of
named_endpoint = refl

digest : body_digest codec import_call ≡ "{\"a\":1}"
unfolding body_digest
digest = refl

pub retry-IsSameCall : IsSameCall codec import_call retry
unfolding media_type
retry-IsSameCall = record {
  same_method = refl;
  same_key = refl;
  same_user = refl;
  same_anonymous = refl;
  same_path = refl;
  same_name = refl;
  same_path_params = refl;
  same_query = Perm.swap a_1 b_2 [];
  same_media_type = refl;
  same_body = inr (
    unfold is_json_type in refl,
    ("{\"a\":1}", unfold canonical_json_text in refl, unfold canonical_json_text in refl),
  );
}

resolved_alike_example :
    resolve_request codec 1 none import_call ≡ resolve_request codec 1 none retry
resolved_alike_example =
    resolved_alike codec (unfold canonical_json_text in refl) 1 none import_call retry
      retry-IsSameCall

payload_separates_example :
    IsSame ada_scope ada_scope
    × (import_call.method ≡ retry.method)
    × (endpoint_of none import_call ≡ endpoint_of none retry)
    × Perm import_call.path_params retry.path_params
    × Perm import_call.query_params retry.query_params
    × (media_type codec import_call.content_type ≡ media_type codec retry.content_type)
    × (body_digest codec import_call ≡ body_digest codec retry)
payload_separates_example =
    payload_separates codec none none ada_scope ada_scope import_call retry
      (unfold fingerprint_payload in refl)
