-- ===== src/Idempotency/Execute/Rollback.antt =====
-- What an execution that records nothing leaves: a failed operation, and a result that is not kept.
use thryve_financial.Base.{Dict, ◌+◌, ◌≡◌, false, none, List, ◌∷◌, arith, eq_refl}
use thryve_financial.Idempotency.Types.{
  IdempotencyPolicy, ResolvedIdempotencyRequest, IdempotentOperationResult, scope_value,
  should_persist, seconds,
}
use thryve_financial.Idempotency.Table.{Table, find, get}
use thryve_financial.Idempotency.Table.Laws.{delete_front}
use thryve_financial.Idempotency.Turn.{Turn, IsQuiet, returned}
use thryve_financial.Idempotency.Claim.{new_record, claim_loop, claim_request}
use thryve_financial.Idempotency.Claim.Termination.{claim_pass-absent}
use thryve_financial.Idempotency.Execute.{
  Serializer, Called, done, Round, execute_claimed_operation, created_response, execute_round,
  execute,
}
use thryve_financial.Idempotency.Execute.Once.{IsAlone}

module _ {A : Type 0} (resolved : ResolvedIdempotencyRequest) (policy : IdempotencyPolicy)
    (serializers : Dict (Serializer A)) (operation : A → Called A IdempotentOperationResult)
    (round : Round) (rounds : List Round) (c : Turn) (cs : List Turn) (t : Table) (app : A) where
  abbrev row : Table
  row =
      new_record resolved policy round.owner
        (round.started + seconds policy.processing_lease_seconds) c
      ∷ t

  -- A result that is not to be kept is returned with its data, and the key is free again.
  pub execute_unkept :
      (result : IdempotentOperationResult) (app' : A)
      → round.claims ≡ c ∷ cs
      → IsQuiet c t
      → IsAlone round.next
      → find (scope_value resolved.scope) resolved.key t ≡ none
      → operation app ≡ done result app'
      → should_persist result ≡ false
      → execute resolved policy serializers operation
          (round ∷ rounds)
          (record { requests = t; app = app })
        ≡ (
          returned (created_response resolved false result.response),
          record { requests = t; app = app' },
        )
  unfolding execute execute_round claim_request claim_loop execute_claimed_operation get
  execute_unkept result app' claims quiet alone free ran unkept =
      let until = round.started + seconds policy.processing_lease_seconds in
      rw (claims, claim_pass-absent resolved policy round.owner until c t quiet free)
        (ground (
          arith,
          alone.0,
          alone.1 row,
          eq_refl round.owner,
          ran,
          unkept,
          delete_front (new_record resolved policy round.owner until c) t quiet.new_id,
        ))
