-- ===== src/Idempotency/Claim/Termination.antt =====
-- The loop of `_claim_request` ends: a pass goes round again only on a lost insert race or after
-- deleting an expired record.
use thryve_financial.Base.{
  ℕ, ◌≡◌, ◌≢◌, refl, String, true, false, Option, none, some, List, ◌∷◌, arith, Option-cases, inl,
  inr,
}
use thryve_financial.Idempotency.Types.{
  IdempotencyPolicy, IdempotencyRequest, ResolvedIdempotencyRequest, scope_value, is_completed,
  IdempotencyStorageSource, Claim, claimed_request, replay_target,
}
use thryve_financial.Idempotency.Table.{Table, IsDistinct, find, get, delete}
use thryve_financial.Idempotency.Table.Laws.{find-delete_self, get-delete-none, add_fresh}
use thryve_financial.Idempotency.Turn.{Turn, IsQuiet, Pass, returned, raised, again, go_round}
use thryve_financial.Idempotency.Claim.{
  new_record, insert_claim, claim_known, claim_pass, claim_loop,
}

module _ (resolved : ResolvedIdempotencyRequest) (policy : IdempotencyPolicy) (owner : String)
    (lease_end : ℕ) where
  abbrev key_row : Table → Option IdempotencyRequest
  key_row = find (scope_value resolved.scope) resolved.key

  -- A quiet pass over a table without the key claims it.
  pub claim_pass-absent :
      (turn : Turn) (t : Table)
      → IsQuiet turn t
      → key_row t ≡ none
      → claim_pass resolved policy owner lease_end turn t ≡ (
        returned (claimed_request turn.fresh_id owner false),
        new_record resolved policy owner lease_end turn ∷ t,
      )
  unfolding claim_pass insert_claim
  claim_pass-absent turn t quiet free =
      let row = new_record resolved policy owner lease_end turn in
      ground (arith, quiet.answers, free, quiet.alone t, add_fresh row t quiet.new_id free)

  -- What a quiet pass leaves when it goes round again: a table without the key.
  pub claim_pass-again :
      (turn : Turn) (t u : Table)
      → IsQuiet turn t
      → IsDistinct t
      → claim_pass resolved policy owner lease_end turn t ≡ (again, u)
      → (key_row u ≡ none) × ((j : ℕ) → get j t ≡ none → get j u ≡ none)
  unfolding claim_pass
  claim_pass-again turn t u quiet d h = elim (Option-cases (key_row t)) [
    | inl e ↦ absurd (ground (arith, claim_pass-absent turn t quiet e))
    | inr (r, e) ↦
        let rows : delete r.id t ≡ u =
          unfold claim_known in ground (arith, quiet.alone t, quiet.answers) in
        rw (← rows) (
          find-delete_self (scope_value resolved.scope) resolved.key t r d e,
          λ j g. get-delete-none j r.id t g,
        )
  ]

  -- Two quiet turns end the loop: the first pass may find an expired record, the second may not.
  pub claim_loop_ends :
      (first second : Turn) (rest : List Turn) (t : Table)
      → IsDistinct t
      → IsQuiet first t
      → IsQuiet second t
      → (claim_loop resolved policy owner lease_end (first ∷ second ∷ rest) t).0 ≢ again
  unfolding claim_loop
  claim_loop_ends first second rest t d quiet quiet' =
      pass_twice (claim_pass resolved policy owner lease_end first t) refl
    where
      pass_twice :
          (p : Pass Claim × Table)
          → claim_pass resolved policy owner lease_end first t ≡ p
          → (go_round p (claim_loop resolved policy owner lease_end (second ∷ rest))).0 ≢ again
      pass_twice (returned c, u) e = λ h. cc
      pass_twice (raised f, u) e = λ h. cc
      pass_twice (again, u) e =
          let (free, ids) = claim_pass-again first t u quiet d e in
          let new : IsQuiet second u = record {
            answers = quiet'.answers;
            alone = quiet'.alone;
            new_id = ids second.fresh_id quiet'.new_id;
          } in
          rw (claim_pass-absent second u new free) (λ h. cc)

-- Where a quiet pass finds a record to replay, it is the key's, and complete.
pub claim_pass-replay :
    (resolved : ResolvedIdempotencyRequest) (policy : IdempotencyPolicy) (owner : String)
    (lease_end : ℕ) (turn : Turn) (t u : Table) (i : ℕ) (source : IdempotencyStorageSource)
    → IsQuiet turn t
    → claim_pass resolved policy owner lease_end turn t ≡ (returned (replay_target i source), u)
    → (r : IdempotencyRequest) × (find (scope_value resolved.scope) resolved.key t ≡ some r)
      × (r.id ≡ i)
      × (is_completed r ≡ true)
      × (u ≡ t)
unfolding claim_pass
claim_pass-replay resolved policy owner lease_end turn t u i source quiet h =
    elim (Option-cases (find (scope_value resolved.scope) resolved.key t)) [
      | inl e ↦
          absurd (ground (arith, claim_pass-absent resolved policy owner lease_end turn t quiet e))
      | inr (r, e) ↦
          let (this, complete, same) = replayed_row r (ground (arith, quiet.answers)) in
          (r, e, this, complete, same)
    ]
  where
    replayed_row :
        (r : IdempotencyRequest)
        → claim_known resolved policy owner lease_end turn r t
          ≡ (returned (replay_target i source), u)
        → (r.id ≡ i) × (is_completed r ≡ true) × (u ≡ t)
    replayed_row r e = ground (arith, quiet.alone t)
