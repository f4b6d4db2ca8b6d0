-- ===== src/Idempotency/Execute/Validity.antt =====
-- The executor keeps the idempotency table valid, on every branch and whatever other sessions
-- commit meanwhile.
use thryve_financial.Base.{Dict, All}
use thryve_financial.Idempotency.Types.{
  IdempotencyPolicy, ResolvedIdempotencyRequest, IdempotentOperationResult, Claim,
}
use thryve_financial.Idempotency.Table.{Table, IsValid}
use thryve_financial.Idempotency.Turn.{Turn, IsFair, Pass}
use thryve_financial.Idempotency.Execute.{Serializer, Store, Called, Round}

abbrev Keeps : {A B : Type 0} → Pass B × Store A → Type 0
Keeps p = IsValid p.1.requests

module _ {A : Type 0} (resolved : ResolvedIdempotencyRequest) (policy : IdempotencyPolicy)
    (serializers : Dict (Serializer A)) (operation : A → Called A IdempotentOperationResult) where
  -- The other sessions commit valid tables in every turn of a round.
  pub record IsFairRound (round : Round) : Type 0 where
    pub claims : All IsFair round.claims
    pub next : IsFair round.next
    pub after : IsFair round.after
