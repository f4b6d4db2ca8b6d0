-- ===== src/Idempotency/Claim/Validity.antt =====
-- A claim keeps the table valid, whatever other sessions commit meanwhile.
use thryve_financial.Base.{
  ℕ, refl, String, List, [], ◌∷◌, arith, Option-cases, inl, inr, All, Bool-cases,
}
use thryve_financial.Idempotency.Types.{
  IdempotencyPolicy, IdempotencyRequest, ResolvedIdempotencyRequest, scope_value,
}
use thryve_financial.Idempotency.Table.{Table, IsValid, find, add, update}
use thryve_financial.Idempotency.Table.Validity.{
  KeepsKey, add-IsValid, delete-IsValid, update-IsValid,
}
use thryve_financial.Idempotency.Turn.{Turn, IsFair, go_round, Pass}
use thryve_financial.Idempotency.Claim.{
  new_record, reclaimed, insert_claim, steal_lease, claim_known, claim_pass, claim_loop,
}

module _ (resolved : ResolvedIdempotencyRequest) (policy : IdempotencyPolicy) (owner : String)
    (lease_end : ℕ) where
  pub reclaimed-KeepsKey : (now : ℕ) → KeepsKey (reclaimed resolved policy owner lease_end now)
  reclaimed-KeepsKey now = record {
    same_id = λ r. refl;
    same_scope = λ r. refl;
    same_key = λ r. refl;
  }

  insert_claim-IsValid :
      (turn : Turn) (t : Table)
      → IsValid (turn.others t)
      → IsValid (insert_claim resolved policy owner lease_end turn t).1
  unfolding insert_claim
  insert_claim-IsValid turn t v =
      elim (Option-cases (add (new_record resolved policy owner lease_end turn) (turn.others t))) [
        | inl e ↦ rw (e, insert_claim) v
        | inr (u, e) ↦ rw (e, insert_claim) (add-IsValid _ _ u (refl, refl, refl, refl) e v)
      ]

  steal_lease-IsValid :
      (turn : Turn) (r : IdempotencyRequest) (t : Table)
      → IsValid (turn.others t)
      → IsValid (steal_lease resolved policy owner lease_end turn r t).1
  unfolding steal_lease
  steal_lease-IsValid turn r t v =
      elim (Option-cases
        (update r.id (reclaimed resolved policy owner lease_end turn.now) (turn.others t))) [
          | inl e ↦ rw (e, steal_lease) v
          | inr (u, e) ↦
              rw (e, steal_lease)
                (update-IsValid r.id _ (turn.others t) u (reclaimed-KeepsKey turn.now) e
                  (λ x _. (refl, refl, refl, refl)) v)
        ]

  claim_known-IsValid :
      (turn : Turn) (r : IdempotencyRequest) (t : Table)
      → IsValid (turn.others t)
      → IsValid (claim_known resolved policy owner lease_end turn r t).1
  unfolding claim_known
  claim_known-IsValid turn r t v =
      ground (arith, delete-IsValid r.id (turn.others t) v, steal_lease-IsValid turn r t v)

  -- One pass keeps the table valid.
  pub claim_pass-IsValid :
      (turn : Turn) (t : Table)
      → IsFair turn
      → IsValid t
      → IsValid (claim_pass resolved policy owner lease_end turn t).1
  unfolding claim_pass
  claim_pass-IsValid turn t fair v =
      let w : IsValid (turn.others t) = fair.keeps t v in
      elim (Bool-cases turn.up) [
        | inr down ↦ rw down w
        | inl up ↦ rw up (elim (Option-cases (find (scope_value resolved.scope) resolved.key t)) [
          | inl e ↦ rw e (insert_claim-IsValid turn t w)
          | inr (r, e) ↦ rw e (claim_known-IsValid turn r t w)
        ])
      ]

  go_round-IsValid :
      {A : Type 0} (p : Pass A × Table) (next : Table → Pass A × Table)
      → IsValid p.1
      → ((u : Table) → IsValid u → IsValid (next u).1)
      → IsValid (go_round p next).1
  go_round-IsValid (Pass.returned a, u) next v n = v
  go_round-IsValid (Pass.raised e, u) next v n = v
  go_round-IsValid (Pass.again, u) next v n = n u v

  -- So does the loop, through any number of passes.
  pub claim_loop-IsValid :
      (turns : List Turn) (t : Table)
      → All IsFair turns
      → IsValid t
      → IsValid (claim_loop resolved policy owner lease_end turns t).1
  unfolding claim_loop
  claim_loop-IsValid [] t fair v = v
  claim_loop-IsValid (turn ∷ turns) t fair v =
      go_round-IsValid (claim_pass resolved policy owner lease_end turn t) _
        (claim_pass-IsValid turn t fair.0 v) (λ u w. claim_loop-IsValid turns u fair.1 w)
