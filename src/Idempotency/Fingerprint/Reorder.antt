-- ===== src/Idempotency/Fingerprint/Reorder.antt =====
-- A retry may write the same request differently.
use thryve_financial.Base.{
  ◌≡◌, refl, sym, ap, ◌∙◌, ℕ, String, true, false, not, Option, none, some, ◌⊎◌, inl, inr, arith,
  eq_iff, ◌==◌, ◌&&◌, sort_by, if◌then◌else◌,
}
use mathlib.Core.List.{Perm}
use thryve_financial.Idempotency.Types.{IdempotencyScope, scope_value}
use thryve_financial.Idempotency.Resolution.{
  MutationRequest, resolved_to, not_resolved, resolve_scope,
}
use thryve_financial.Idempotency.Fingerprint.{
  Codecs, key_leb, endpoint_of, media_type, is_json_type, canonical_json_text, normalized_body,
  body_digest, fingerprint_payload, truncate_hash, resolve_request,
}
use thryve_financial.Idempotency.Fingerprint.Order.{sort_by-eq}

module _ {J : Type 0} (lib : Codecs J) where
  -- Two bodies of one media type are the same, or are JSON of it with one canonical text.
  abbrev pub IsSameBody : MutationRequest → MutationRequest → Type 0
  IsSameBody r s =
      (r.body ≡ s.body)
      ⊎ ((is_json_type lib (media_type lib r.content_type) ≡ true)
          × ((t : String) × (canonical_json_text lib r.body ≡ some t)
              × (canonical_json_text lib s.body ≡ some t)))

  -- Two requests are one call: they differ at most in the order of the query parameters, in what
  -- the media type leaves out of the `Content-Type`, and in how the JSON of the body is written.
  pub record IsSameCall (r s : MutationRequest) : Type 0 where
    pub same_method : r.method ≡ s.method
    pub same_key : r.idempotency_key ≡ s.idempotency_key
    pub same_user : r.user_id ≡ s.user_id
    pub same_anonymous : r.anonymous_id ≡ s.anonymous_id
    pub same_path : r.route_path ≡ s.route_path
    pub same_name : r.route_name ≡ s.route_name
    pub same_path_params : r.path_params ≡ s.path_params
    pub same_query : Perm r.query_params s.query_params
    pub same_media_type : media_type lib r.content_type ≡ media_type lib s.content_type
    pub same_body : IsSameBody r s

  canonical_not_empty :
      canonical_json_text lib "" ≡ none
      → (body t : String) → canonical_json_text lib body ≡ some t
      → (body == "") ≡ false
  canonical_not_empty fails body t h =
      let at_empty : body ≡ "" → some t ≡ none =
        λ e. sym h ∙ ap (canonical_json_text lib) e ∙ fails in
      ground (arith, at_empty, eq_iff body "")

  normalized_canonical :
      canonical_json_text lib "" ≡ none
      → (type body t : String) → is_json_type lib (media_type lib type) ≡ true
      → canonical_json_text lib body ≡ some t
      → normalized_body lib type body ≡ t
  unfolding normalized_body
  normalized_canonical fails type body t json h =
      ground (arith, json, h, canonical_not_empty fails body t h)

  normalized-same_type :
      (type other body : String)
      → media_type lib type ≡ media_type lib other
      → normalized_body lib type body ≡ normalized_body lib other body
  unfolding normalized_body
  normalized-same_type type other body e = λ i.
      if not (body == "") && is_json_type lib (e i)
      then elim (canonical_json_text lib body) [ none ↦ body | some t ↦ t ]
      else body

  normalized-IsSameBody :
      canonical_json_text lib "" ≡ none
      → (r s : MutationRequest) → media_type lib r.content_type ≡ media_type lib s.content_type
      → IsSameBody r s
      → normalized_body lib r.content_type r.body ≡ normalized_body lib s.content_type s.body
  normalized-IsSameBody fails r s e (inl same) =
      ap (normalized_body lib r.content_type) same
      ∙ normalized-same_type r.content_type s.content_type s.body e
  normalized-IsSameBody fails r s e (inr (json, (t, h, k))) =
      normalized_canonical fails r.content_type r.body t json h
      ∙ sym (
          normalized_canonical fails s.content_type s.body t (sym (ap (is_json_type lib) e) ∙ json)
            k)

  resolve_scope-IsSameCall :
      (r s : MutationRequest) → IsSameCall r s → resolve_scope r ≡ resolve_scope s
  unfolding resolve_scope
  resolve_scope-IsSameCall r s c = rw (c.same_key, c.same_user, c.same_anonymous) refl

  endpoint_of-IsSameCall :
      (operation : Option String) (r s : MutationRequest)
      → IsSameCall r s
      → endpoint_of operation r ≡ endpoint_of operation s
  unfolding endpoint_of
  endpoint_of-IsSameCall operation r s c = rw (c.same_method, c.same_path, c.same_name) refl

  fingerprint_payload-IsSameCall :
      canonical_json_text lib "" ≡ none
      → (operation : Option String) (scope : IdempotencyScope) (r s : MutationRequest)
      → IsSameCall r s
      → fingerprint_payload lib operation scope r ≡ fingerprint_payload lib operation scope s
  unfolding fingerprint_payload body_digest
  fingerprint_payload-IsSameCall fails operation scope r s c = λ i. record {
    scope = scope_value scope;
    method = c.same_method i;
    endpoint = endpoint_of-IsSameCall operation r s c i;
    path_params = sort_by key_leb (c.same_path_params i);
    query_params = sort_by-eq c.same_query i;
    content_type = c.same_media_type i;
    body_digest = lib.sha256 (normalized-IsSameBody fails r s c.same_media_type c.same_body i);
  }

  -- If the JSON codec refuses an empty body, two requests that are one call are resolved alike, so
  -- with one fingerprint: a retry may reorder the query parameters, spell the media type
  -- differently, and write the JSON of its body differently.
  pub resolved_alike :
      canonical_json_text lib "" ≡ none
      → (version : ℕ) (operation : Option String) (r s : MutationRequest) → IsSameCall r s
      → resolve_request lib version operation r ≡ resolve_request lib version operation s
  unfolding resolve_request
  resolved_alike fails version operation r s c = λ i. elim (resolve_scope-IsSameCall r s c i) [
    | not_resolved refusal ↦ inl refusal
    | resolved_to key scope ↦ inr (record {
      key = key;
      key_hash = truncate_hash lib key;
      scope = scope;
      endpoint = endpoint_of-IsSameCall operation r s c i;
      fingerprint_hash =
          lib.sha256
            (lib.dumps_payload (fingerprint_payload-IsSameCall fails operation scope r s c i));
      fingerprint_version = version;
    })
  ]
