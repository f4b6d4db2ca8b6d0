-- ===== src/Idempotency/Submit/Retry.antt =====
-- A retry that writes a request differently is replayed.
use thryve_financial.Base.{
  Dict, ◌+◌, ◌<◌, ◌≡◌, sym, ap, ◌∙◌, inr, String, true, Option, none, some, List, ◌∷◌, item, truthy,
  if◌then◌else◌,
}
use thryve_financial.Idempotency.Types.{
  IdempotencyPolicy, ResolvedIdempotencyRequest, IdempotentOperationResult, Response, scope_value,
  should_persist, seconds,
}
use thryve_financial.Idempotency.Table.{Table, IsDistinct, find}
use thryve_financial.Idempotency.Turn.{Turn, IsQuiet, returned}
use thryve_financial.Idempotency.Resolution.{MutationRequest}
use thryve_financial.Idempotency.Fingerprint.{Codecs, canonical_json_text, resolve_request}
use thryve_financial.Idempotency.Fingerprint.Reorder.{IsSameCall, resolved_alike}
use thryve_financial.Idempotency.Execute.{
  Serializer, Called, done, Round, Store, created_response, replayed_response, execute,
}
use thryve_financial.Idempotency.Execute.Once.{IsAlone, execute_twice}
use thryve_financial.Idempotency.Submit.{submit, after_resolution}

module _ {J A : Type 0} (lib : Codecs J) (operation_name : Option String)
    (policy : IdempotencyPolicy) (serializers : Dict (Serializer A))
    (operation : A → Called A IdempotentOperationResult) where
  submit-resolved :
      (r : MutationRequest) (resolved : ResolvedIdempotencyRequest) (rounds : List Round)
      (s : Store A)
      → resolve_request lib policy.fingerprint_version operation_name r ≡ inr resolved
      → submit lib operation_name policy serializers r operation rounds s
        ≡ execute resolved policy serializers operation rounds s
  unfolding submit
  submit-resolved r resolved rounds s known =
      ap (after_resolution policy serializers operation rounds s) known

  -- The first request with a key runs its operation. A retry that is the same call, at most written
  -- differently, does not run it: it is answered with the serializer's response to the recorded
  -- result, and leaves the data that the serializer leaves. Both are undisturbed, the record has
  -- not expired, and the JSON codec refuses an empty body.
  pub submit_retry :
      (r s : MutationRequest) (resolved : ResolvedIdempotencyRequest)
      (result : IdempotentOperationResult) (round rival : Round) (rounds rivals : List Round)
      (c c' : Turn) (cs cs' : List Turn) (t : Table) (app app' app'' : A)
      (build_response : Serializer A) (response : Response)
      → canonical_json_text lib "" ≡ none
      → IsSameCall lib r s
      → resolve_request lib policy.fingerprint_version operation_name r ≡ inr resolved
      → round.claims ≡ c ∷ cs
      → IsQuiet c t
      → IsAlone round.next
      → IsDistinct t
      → find (scope_value resolved.scope) resolved.key t ≡ none
      → operation app ≡ done result app'
      → should_persist result ≡ true
      → rival.claims ≡ c' ∷ cs'
      → IsAlone c'
      → IsAlone rival.next
      → c'.now < c.now + seconds policy.retention_seconds
      → rival.next.now < c.now + seconds policy.retention_seconds
      → item serializers result.result_ref.serializer ≡ some build_response
      → build_response app' result.result_ref result.response.status_code (
          if truthy result.result_type
          then result.result_type
          else some result.result_ref.serializer)
        ≡ done response app''
      → (u : Table) × (v : Table) × (submit lib operation_name policy serializers r operation
            (round ∷ rounds)
            (record { requests = t; app = app })
          ≡ (
            returned (created_response resolved true result.response),
            record { requests = u; app = app' },
          ))
        × (submit lib operation_name policy serializers s operation
              (rival ∷ rivals)
              (record { requests = u; app = app' })
            ≡ (
              returned (replayed_response resolved response),
              record { requests = v; app = app'' },
            ))
  submit_retry r s resolved result round rival rounds rivals c c' cs cs' t app app' app''
        build_response response fails same known claims quiet alone d free ran persists claims'
        quiet' alone' kept kept' serializer built =
      let (u, v, first, second) =
        execute_twice resolved policy serializers operation result round rounds c cs t app app'
          rival rivals c' cs' policy operation build_response response app'' claims quiet alone d
          free ran persists claims' quiet' alone' kept kept' serializer built in
      let again =
        sym (resolved_alike lib fails policy.fingerprint_version operation_name r s same) ∙ known in
      (
        u,
        v,
        submit-resolved r resolved (round ∷ rounds) _ known ∙ first,
        submit-resolved s resolved (rival ∷ rivals) _ again ∙ second,
      )
