-- ===== src/Idempotency/Fingerprint.antt =====
-- pfm/app/core/idempotency.py: the fingerprint of a request, and `_resolve_idempotency_request` as a
-- whole. The hash, `lower` and the JSON codec are parameters.
pub mod Order
pub mod Reorder
pub mod Separate
pub mod Tests
use Prim.Native.String.{slice, ◌++◌}
use thryve_financial.Base.{
  ℕ, String, Bool, not, Option, none, some, List, ◌⊎◌, inl, inr, ◌==◌, ◌&&◌, ◌||◌, truthy, or_text,
  before, strip, ends_with, sort_by, text_leb, if◌then◌else◌,
}
use thryve_financial.Idempotency.Types.{IdempotencyScope, ResolvedIdempotencyRequest, scope_value}
use thryve_financial.Idempotency.Resolution.{
  MutationRequest, Parameter, Refusal, resolved_to, not_resolved, text_of, resolve_scope,
}

-- What is hashed: the fields of `fingerprint_payload`.
pub record FingerprintPayload : Type 0 where
  pub scope : String
  pub method : String
  pub endpoint : String
  pub path_params : List Parameter
  pub query_params : List Parameter
  pub content_type : String
  pub body_digest : String

-- The code that is called: `str.lower`, the hexadecimal SHA-256, `json.loads` of the body, and
-- `json.dumps` of a parsed body and of the payload. None is a `ValueError`.
pub record Codecs (J : Type 0) : Type 0 where
  pub lower : String → String
  pub sha256 : String → String
  pub loads : String → Option J
  pub dumps : J → Option String
  pub dumps_payload : FingerprintPayload → String

-- Python's `<=` on pairs.
unfoldable pub pair_leb : Parameter → Parameter → Bool
unfolding text_leb
pair_leb p q = if p.key == q.key then text_leb p.value q.value else text_leb p.key q.key

unfoldable pub key_leb : Parameter → Parameter → Bool
unfolding text_leb
key_leb p q = text_leb p.key q.key

unfoldable pub normalize_path_params : MutationRequest → List Parameter
unfolding sort_by key_leb
normalize_path_params r = sort_by key_leb r.path_params

unfoldable pub normalize_query_params : MutationRequest → List Parameter
unfolding sort_by pair_leb
normalize_query_params r = sort_by pair_leb r.query_params

-- `operation_name or f"{method}:{route_path}:{route_name}"`
unfoldable pub endpoint_of : Option String → MutationRequest → String
endpoint_of operation_name r =
    if truthy operation_name
    then text_of operation_name
    else r.method ++ ":" ++ r.route_path ++ ":" ++ text_of (or_text r.route_name (some "endpoint"))

module _ {J : Type 0} (lib : Codecs J) where
  unfoldable pub truncate_hash : String → String
  truncate_hash value = slice (lib.sha256 value) 0 12

  unfoldable pub media_type : String → String
  unfolding strip before
  media_type content_type = lib.lower (strip (before 59 content_type))

  -- The test of `_json_content_type`, on the normalized type.
  unfoldable pub is_json_type : String → Bool
  unfolding ends_with
  is_json_type normalized = (normalized == "application/json") || ends_with "+json" normalized

  unfoldable pub canonical_json_text : String → Option String
  canonical_json_text body = elim (lib.loads body) [ none ↦ none | some v ↦ lib.dumps v ]

  unfoldable pub normalized_body : String → String → String
  unfolding canonical_json_text is_json_type media_type
  normalized_body content_type body =
      if not (body == "") && is_json_type (media_type content_type)
      then elim (canonical_json_text body) [ none ↦ body | some t ↦ t ]
      else body

  unfoldable pub body_digest : MutationRequest → String
  unfolding normalized_body
  body_digest r = lib.sha256 (normalized_body r.content_type r.body)

  unfoldable pub fingerprint_payload :
      Option String → IdempotencyScope → MutationRequest → FingerprintPayload
  unfolding endpoint_of normalize_path_params normalize_query_params media_type body_digest
  fingerprint_payload operation_name scope r = record {
    scope = scope_value scope;
    method = r.method;
    endpoint = endpoint_of operation_name r;
    path_params = normalize_path_params r;
    query_params = normalize_query_params r;
    content_type = media_type r.content_type;
    body_digest = body_digest r;
  }

  unfoldable pub resolve_request :
      ℕ → Option String → MutationRequest → Refusal ⊎ ResolvedIdempotencyRequest
  unfolding resolve_scope endpoint_of truncate_hash fingerprint_payload
  resolve_request version operation_name r = elim (resolve_scope r) [
    | not_resolved refusal ↦ inl refusal
    | resolved_to key scope ↦ inr (record {
      key = key;
      key_hash = truncate_hash key;
      scope = scope;
      endpoint = endpoint_of operation_name r;
      fingerprint_hash =
          lib.sha256 (lib.dumps_payload (fingerprint_payload operation_name scope r));
      fingerprint_version = version;
    })
  ]
