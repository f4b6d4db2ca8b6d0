-- ===== src/Idempotency/Claim.antt =====
-- `IdempotencyExecutor._claim_request` of pfm/app/core/idempotency.py. The lease's owner and end are
-- chosen once, before the loop; each pass of the loop is one transaction over a turn.
pub mod Validity
pub mod Exclusion
pub mod Termination
use thryve_financial.Base.{
  ℕ, ◌+◌, ◌-◌, ◌/◌, max, String, Bool, true, false, not, ◌||◌, Option, none, some, List, [], ◌∷◌,
  ltb, leb, eqb, ◌==◌, if◌then◌else◌,
}
use thryve_financial.Idempotency.Types.{
  IdempotencyPolicy, IdempotencyRequest, ResolvedIdempotencyRequest, Claim, claimed_request,
  replay_target, in_progress_target, database, processing, payload_mismatch, stale_data,
  database_error, seconds, scope_value, is_completed,
}
use thryve_financial.Idempotency.Table.{Table, find, add, delete, update}
use thryve_financial.Idempotency.Turn.{Turn, Pass, returned, raised, again, go_round}

-- The fingerprint test of `_claim_request` and of `_replay_record`.
abbrev pub fingerprint_differs : IdempotencyRequest → ResolvedIdempotencyRequest → Bool
fingerprint_differs record' resolved =
    not (record'.fingerprint_hash == resolved.fingerprint_hash)
    || not (eqb record'.fingerprint_version resolved.fingerprint_version)

-- `record.lease_expires_at is not None and record.lease_expires_at > now`
abbrev pub lease_is_live : Option ℕ → ℕ → Bool
lease_is_live none now = false
lease_is_live (some until) now = ltb now until

-- `max(1, int((record.lease_expires_at - now).total_seconds()))`
unfoldable pub retry_after : Option ℕ → ℕ → ℕ
retry_after none now = 1
retry_after (some until) now = max 1 ((until - now) / 1000000)

module _ (resolved : ResolvedIdempotencyRequest) (policy : IdempotencyPolicy) (owner : String)
    (lease_end : ℕ) where
  -- The row of a first claim, with the columns' defaults.
  abbrev pub new_record : Turn → IdempotencyRequest
  new_record turn = record {
    id = turn.fresh_id;
    scope = scope_value resolved.scope;
    idempotency_key = resolved.key;
    endpoint = resolved.endpoint;
    fingerprint_hash = resolved.fingerprint_hash;
    fingerprint_version = resolved.fingerprint_version;
    status = processing;
    lease_owner = some owner;
    lease_expires_at = some lease_end;
    result_type = none;
    result_ref = none;
    response_status_code = none;
    error_code = none;
    replay_count = 0;
    last_replayed_at = none;
    expires_at = turn.now + seconds policy.retention_seconds;
  }

  -- The columns that taking over a run-out lease sets.
  abbrev pub reclaimed : ℕ → IdempotencyRequest → IdempotencyRequest
  reclaimed now r = record r {
    status = processing;
    lease_owner = some owner;
    lease_expires_at = some lease_end;
    endpoint = resolved.endpoint;
    result_type = none;
    result_ref = none;
    response_status_code = none;
    error_code = none;
    expires_at = now + seconds policy.retention_seconds;
  }

  insert_claim : Turn → Table → Pass Claim × Table
  insert_claim turn t = elim (add (new_record turn) (turn.others t)) [
    | none ↦ (again, turn.others t)
    | some u ↦ (returned (claimed_request turn.fresh_id owner false), u)
  ]

  steal_lease : Turn → IdempotencyRequest → Table → Pass Claim × Table
  steal_lease turn r t = elim (update r.id (reclaimed turn.now) (turn.others t)) [
    | none ↦ (raised stale_data, turn.others t)
    | some u ↦ (returned (claimed_request r.id owner true), u)
  ]

  claim_known : Turn → IdempotencyRequest → Table → Pass Claim × Table
  unfolding steal_lease
  claim_known turn r t =
      if leb r.expires_at turn.now
      then (again, delete r.id (turn.others t))
      else if fingerprint_differs r resolved
      then (raised payload_mismatch, turn.others t)
      else if is_completed r
      then (returned (replay_target r.id database), turn.others t)
      else if lease_is_live r.lease_expires_at turn.now
      then (returned (in_progress_target (retry_after r.lease_expires_at turn.now)), turn.others t)
      else steal_lease turn r t

  -- One pass of the loop: one transaction.
  unfoldable pub claim_pass : Turn → Table → Pass Claim × Table
  unfolding insert_claim claim_known
  claim_pass turn t =
      if turn.up
      then elim (find (scope_value resolved.scope) resolved.key t) [
        | none ↦ insert_claim turn t
        | some r ↦ claim_known turn r t
      ]
      else (raised database_error, turn.others t)

  -- The loop, over the turns that its passes meet; `again` is a loop that has not ended yet.
  unfoldable pub claim_loop : List Turn → Table → Pass Claim × Table
  claim_loop [] t = (again, t)
  claim_loop (turn ∷ turns) t = go_round (claim_pass turn t) (claim_loop turns)

unfoldable pub claim_request :
    ResolvedIdempotencyRequest
    → IdempotencyPolicy
    → String
    → ℕ
    → List Turn
    → Table
    → Pass Claim × Table
unfolding claim_loop
claim_request resolved policy owner started turns t =
    claim_loop resolved policy owner (started + seconds policy.processing_lease_seconds) turns t
