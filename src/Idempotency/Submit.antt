-- ===== src/Idempotency/Submit.antt =====
-- pfm/app/core/idempotency.py: `IdempotencyExecutor.execute` as a whole, from the request on.
pub mod Retry
mod Tests
use thryve_financial.Base.{Dict, String, Option, List, inl, inr, ◌⊎◌}
use thryve_financial.Idempotency.Types.{
  IdempotencyPolicy, IdempotentOperationResult, Response, Failure, ResolvedIdempotencyRequest,
}
use thryve_financial.Idempotency.Turn.{Pass, raised}
use thryve_financial.Idempotency.Resolution.{MutationRequest, Refusal}
use thryve_financial.Idempotency.Fingerprint.{Codecs, resolve_request}
use thryve_financial.Idempotency.Execute.{Serializer, Called, Round, Store, execute}

abbrev pub refusal_failure : Refusal → Failure
refusal_failure Refusal.key_required = Failure.key_required
refusal_failure Refusal.scope_required = Failure.scope_required

-- What `execute` does with the resolved request.
abbrev pub after_resolution :
    {A : Type 0}
    → IdempotencyPolicy
    → Dict (Serializer A)
    → (A → Called A IdempotentOperationResult)
    → List Round
    → Store A
    → Refusal ⊎ ResolvedIdempotencyRequest
    → Pass Response × Store A
after_resolution policy serializers operation rounds s (inl refusal) =
    (raised (refusal_failure refusal), s)
after_resolution policy serializers operation rounds s (inr resolved) =
    execute resolved policy serializers operation rounds s

-- The policy is the one in effect, `policy or self._policy`.
unfoldable pub submit :
    {J A : Type 0}
    → Codecs J
    → Option String
    → IdempotencyPolicy
    → Dict (Serializer A)
    → MutationRequest
    → (A → Called A IdempotentOperationResult)
    → List Round
    → Store A
    → Pass Response × Store A
unfolding resolve_request execute
submit lib operation_name policy serializers r operation rounds s =
    after_resolution policy serializers operation rounds s
      (resolve_request lib policy.fingerprint_version operation_name r)
