-- ===== src/Idempotency/Execute/Lease.antt =====
-- What holding a lease allows: renewal, release and completion belong to the lease's owner, as the
-- row stands when the transaction reads it.
use thryve_financial.Base.{
  ℕ, ◌+◌, ◌≡◌, ◌≢◌, refl, String, true, false, none, arith, eq_iff, eq_refl,
}
use thryve_financial.Idempotency.Types.{
  IdempotencyPolicy, ResolvedIdempotencyRequest, IdempotentOperationResult, still_in_progress,
  scope_value, seconds,
}
use thryve_financial.Idempotency.Table.{Table, set_row}
use thryve_financial.Idempotency.Table.Laws.{find-set_row, get-set_row, update_found}
use thryve_financial.Idempotency.Turn.{Turn, raised}
use thryve_financial.Idempotency.Claim.Exclusion.{IsHeld}
use thryve_financial.Idempotency.Execute.{
  Called, renewed, release_claim, execute_claimed_operation, renew_pass,
}
use thryve_financial.Idempotency.Execute.Once.{IsAlone}

module _ (resolved : ResolvedIdempotencyRequest) (policy : IdempotencyPolicy) (owner : String)
    (lease_end expiry i : ℕ) (turn : Turn) (t : Table) where
  -- An undisturbed renewal by the holder moves the lease's end to a full lease from now, and leaves
  -- the rest of the claim as it was.
  pub renew_pass-IsHeld :
      IsHeld resolved owner lease_end expiry i t
      → IsAlone turn
      → (u : Table) × (renew_pass i owner policy turn t ≡ (true, u))
        × IsHeld resolved owner (turn.now + seconds policy.processing_lease_seconds) expiry i u
  unfolding renew_pass
  renew_pass-IsHeld held alone =
      let change = renewed policy turn.now in
      let row = held.row in
      (
        set_row i change t,
        ground (
          arith,
          alone.0,
          alone.1 t,
          held.by_id,
          held.held_by,
          held.open_row,
          eq_refl owner,
          update_found i change t row held.by_id,
        ),
        record {
          row = change row;
          found = ground (
            arith,
            find-set_row (scope_value resolved.scope) resolved.key i change t (λ x. refl),
            held.found,
            held.its_id,
          );
          by_id = ground (arith, get-set_row i change t (λ x. refl), held.by_id, held.its_id);
          open_row = held.open_row;
          held_by = held.held_by;
          held_until = refl;
          same_hash = held.same_hash;
          same_version = held.same_version;
          kept_until = held.kept_until;
          its_id = held.its_id;
        },
      )

module _ {A : Type 0} (resolved other : ResolvedIdempotencyRequest) (policy : IdempotencyPolicy)
    (owner thief : String) (lease_end expiry i : ℕ)
    (operation : A → Called A IdempotentOperationResult) (turn after : Turn) (t : Table)
    (app : A) where
  -- A worker whose lease another one took over can no longer renew it or run its operation, and
  -- its release leaves the other's claim alone: the store stays as it was.
  pub lost_lease :
      IsHeld other thief lease_end expiry i t
      → thief ≢ owner
      → IsAlone turn
      → IsAlone after
      → (renew_pass i owner policy turn t ≡ (false, t))
        × (release_claim i owner turn t ≡ t)
        × (execute_claimed_operation resolved i owner operation turn after
              (record { requests = t; app = app })
            ≡ (raised (still_in_progress none), record { requests = t; app = app }))
  unfolding renew_pass release_claim execute_claimed_operation
  lost_lease held differ alone alone' = (
    ground (arith, alone.0, alone.1 t, held.by_id, held.held_by, eq_iff thief owner),
    ground (arith, alone.0, alone.1 t, held.by_id, held.held_by, eq_iff thief owner),
    ground (
      arith,
      alone.0,
      alone.1 t,
      alone'.0,
      alone'.1 t,
      held.by_id,
      held.held_by,
      eq_iff thief owner,
    ),
  )
