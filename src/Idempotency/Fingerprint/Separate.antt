-- ===== src/Idempotency/Fingerprint/Separate.antt =====
-- What is hashed tells different requests apart.
use thryve_financial.Base.{◌≡◌, ap, subst, Bool, String, Option, List, sort_by, sort_by-perm}
use mathlib.Core.List.{Perm}
use mathlib.Core.List.Perm
use thryve_financial.Idempotency.Types.{IdempotencyScope}
use thryve_financial.Idempotency.Resolution.{MutationRequest, Parameter}
use thryve_financial.Idempotency.Resolution.Isolation.{IsSame, scope_value-IsSame}
use thryve_financial.Idempotency.Fingerprint.{
  Codecs, FingerprintPayload, pair_leb, key_leb, endpoint_of, media_type, body_digest,
  fingerprint_payload,
}

sorts_apart :
    (may_precede : Parameter → Parameter → Bool) (l m : List Parameter)
    → sort_by may_precede l ≡ sort_by may_precede m
    → Perm l m
sorts_apart may_precede l m e = Perm.trans (Perm.symm (sort_by-perm may_precede l)) (
    Perm.trans (subst (λ k. Perm (sort_by may_precede l) k) e Perm.rfl)
      (sort_by-perm may_precede m))

-- If what is hashed of two requests is the same, then they are of one scope, one method, one
-- endpoint and one media type, their parameters are the same up to order, and the digests of
-- their bodies agree.
pub payload_separates :
    {J : Type 0} (lib : Codecs J) (operation other : Option String) (scope t : IdempotencyScope)
    (r s : MutationRequest)
    → fingerprint_payload lib operation scope r ≡ fingerprint_payload lib other t s
    → IsSame scope t
      × (r.method ≡ s.method)
      × (endpoint_of operation r ≡ endpoint_of other s)
      × Perm r.path_params s.path_params
      × Perm r.query_params s.query_params
      × (media_type lib r.content_type ≡ media_type lib s.content_type)
      × (body_digest lib r ≡ body_digest lib s)
unfolding fingerprint_payload
payload_separates lib operation other scope t r s e = (
  scope_value-IsSame scope.kind t.kind scope.subject t.subject
      (ap (λ (p : FingerprintPayload). p.scope) e),
  ap (λ (p : FingerprintPayload). p.method) e,
  ap (λ (p : FingerprintPayload). p.endpoint) e,
  sorts_apart key_leb r.path_params s.path_params
      (ap (λ (p : FingerprintPayload). p.path_params) e),
  sorts_apart pair_leb r.query_params s.query_params
      (ap (λ (p : FingerprintPayload). p.query_params) e),
  ap (λ (p : FingerprintPayload). p.content_type) e,
  ap (λ (p : FingerprintPayload). p.body_digest) e,
)
