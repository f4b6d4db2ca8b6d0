-- ===== src/Idempotency/Execute.antt =====
-- `IdempotencyExecutor` of pfm/app/core/idempotency.py after a claim: the operation and its record
-- in one transaction, the replay of a completed record, the release of a failed claim, and the
-- loop that joins them. `A` is the data that the operation writes, in the same transaction.
-- Metrics, spans and log lines are left out.
pub mod Validity
pub mod Once
pub mod Rollback
pub mod Termination
pub mod Lease
use thryve_financial.Base.{
  Dict, ℕ, ◌+◌, String, Bool, true, false, not, Option, none, some, List, [], ◌∷◌, leb, is_text,
  truthy, ◌||◌, if◌then◌else◌, item, set_item,
}
use thryve_financial.Idempotency.Types.{
  IdempotencyPolicy, IdempotencyRequest, ResolvedIdempotencyRequest, IdempotencyResultRef,
  IdempotentOperationResult, Response, Claim, claimed_request, replay_target, in_progress_target,
  completed, created, replayed, response_status_value, Failure, still_in_progress, payload_mismatch,
  missing_replay_metadata, missing_serializer_key, no_serializer, stale_data, database_error,
  seconds, raised_by_operation, raised_by_serializer, is_completed, is_processing, as_json,
  from_json, should_persist,
}
use thryve_financial.Idempotency.Table.{Table, get, delete, update}
use thryve_financial.Idempotency.Turn.{Turn, Pass, returned, raised, again, go_round}
use thryve_financial.Idempotency.Claim.{fingerprint_differs, claim_request}

abbrev pub idempotency_key_header : String
idempotency_key_header = "Idempotency-Key"

abbrev pub idempotency_status_header : String
idempotency_status_header = "Idempotency-Status"

-- `response.headers[name] = value`
abbrev pub with_header : String → String → Response → Response
with_header name value r = record r { headers = set_item r.headers name value }

-- The headers of a response that was recorded, replayed, or neither.
abbrev pub created_response : ResolvedIdempotencyRequest → Bool → Response → Response
created_response resolved persisted r =
    let keyed = with_header idempotency_key_header resolved.key r in
    if persisted
    then with_header idempotency_status_header (response_status_value created) keyed
    else keyed

abbrev pub replayed_response : ResolvedIdempotencyRequest → Response → Response
replayed_response resolved r =
    with_header idempotency_status_header (response_status_value replayed)
      (with_header idempotency_key_header resolved.key r)

-- `_release_claim`: what goes wrong in it is logged and dropped.
unfoldable pub release_claim : ℕ → String → Turn → Table → Table
release_claim i owner turn t =
    if turn.up
    then elim (get i t) [
      | none ↦ turn.others t
      | some r ↦
          if not (is_text r.lease_owner owner)
          then turn.others t
          else if is_processing r
          then delete i (turn.others t)
          else turn.others t
    ]
    else turn.others t

-- What an awaited call of the application gives: its answer and the data it leaves, or an error.
pub data Called (A B : Type 0) : Type 0 where
  done : B → A → Called A B
  failed : String → Called A B

pub record Store (A : Type 0) : Type 0 where
  pub requests : Table
  pub app : A

-- The columns that a recorded result sets.
abbrev pub recorded : IdempotentOperationResult → IdempotencyRequest → IdempotencyRequest
recorded result r = record r {
  status = completed;
  lease_owner = none;
  lease_expires_at = none;
  result_type =
      if truthy result.result_type then result.result_type else some result.result_ref.serializer;
  result_ref = some (as_json result.result_ref);
  response_status_code = some result.response.status_code;
  error_code = result.error_code;
}

-- The columns that a replay sets, from the row as it was read.
abbrev pub counted : IdempotencyRequest → ℕ → IdempotencyRequest → IdempotencyRequest
counted seen now r = record r { replay_count = seen.replay_count + 1; last_replayed_at = some now }

-- The column that a renewal sets.
abbrev pub renewed : IdempotencyPolicy → ℕ → IdempotencyRequest → IdempotencyRequest
renewed policy now r = record r {
  lease_expires_at = some (now + seconds policy.processing_lease_seconds);
}

abbrev pub release_raised :
    {A : Type 0} → ℕ → String → Turn → Pass Response × Store A → Pass Response × Store A
release_raised i owner turn (raised e, s) =
    (raised e, record s { requests = release_claim i owner turn s.requests })
release_raised i owner turn (r, s) = (r, s)

-- A serializer's `build_response`: the data it reads, the reference, the status and the type.
abbrev pub Serializer : Type 0 → Type 0
Serializer A = A → IdempotencyResultRef → ℕ → Option String → Called A Response

module _ {A : Type 0} (resolved : ResolvedIdempotencyRequest) where
  -- What a transaction that raises leaves: the commits of others.
  abbrev pub rolled_back : Turn → Store A → Store A
  rolled_back turn s = record s { requests = turn.others s.requests }

  unfoldable pub commit_result :
      ℕ → IdempotentOperationResult → A → Turn → Store A → Pass Response × Store A
  commit_result i result app turn s =
      if should_persist result
      then elim (update i (recorded result) (turn.others s.requests)) [
        | none ↦ (raised stale_data, rolled_back turn s)
        | some u ↦ (
          returned (created_response resolved true result.response),
          record { requests = u; app = app },
        )
      ]
      else (
        returned (created_response resolved false result.response),
        record { requests = delete i (turn.others s.requests); app = app },
      )

  -- The transaction of `_execute_claimed_operation`.
  unfoldable pub run_claimed :
      ℕ
      → String
      → (A → Called A IdempotentOperationResult)
      → Turn
      → Store A
      → Pass Response × Store A
  run_claimed i owner operation turn s =
      if turn.up
      then elim (get i s.requests) [
        | none ↦ (raised (still_in_progress none), rolled_back turn s)
        | some r ↦
            if is_text r.lease_owner owner
            then elim (operation s.app) [
              | failed e ↦ (raised (raised_by_operation e), rolled_back turn s)
              | done result app ↦ commit_result i result app turn s
            ]
            else (raised (still_in_progress none), rolled_back turn s)
      ]
      else (raised database_error, rolled_back turn s)

  -- `_execute_claimed_operation`: a second turn for the release of a claim whose run raised.
  unfoldable pub execute_claimed_operation :
      ℕ
      → String
      → (A → Called A IdempotentOperationResult)
      → Turn
      → Turn
      → Store A
      → Pass Response × Store A
  unfolding run_claimed commit_result
  execute_claimed_operation i owner operation turn after s =
      release_raised i owner after (run_claimed i owner operation turn s)

  unfoldable pub rebuild :
      IdempotencyRequest
      → IdempotencyResultRef
      → ℕ
      → Dict (Serializer A)
      → Turn
      → Store A
      → Pass Response × Store A
  rebuild r ref status serializers turn s = elim (item serializers ref.serializer) [
    | none ↦ (raised (no_serializer ref.serializer), rolled_back turn s)
    | some build_response ↦ elim (build_response s.app ref status r.result_type) [
      | failed e ↦ (raised (raised_by_serializer e), rolled_back turn s)
      | done response app ↦ elim (update r.id (counted r turn.now) (turn.others s.requests)) [
        | none ↦ (raised stale_data, rolled_back turn s)
        | some u ↦
            (returned (replayed_response resolved response), record { requests = u; app = app })
      ]
    ]
  ]

  replay_completed :
      IdempotencyRequest → Dict (Serializer A) → Turn → Store A → Pass Response × Store A
  unfolding rebuild
  replay_completed r serializers turn s =
      if fingerprint_differs r resolved
      then (raised payload_mismatch, rolled_back turn s)
      else elim r.result_ref [
        | none ↦ (raised missing_replay_metadata, rolled_back turn s)
        | some payload ↦ elim r.response_status_code [
          | none ↦ (raised missing_replay_metadata, rolled_back turn s)
          | some status ↦ elim (from_json payload) [
            | none ↦ (raised missing_serializer_key, rolled_back turn s)
            | some ref ↦ rebuild r ref status serializers turn s
          ]
        ]
      ]

  -- `_replay_record`; `again` is its `None`, on which `execute` goes round.
  unfoldable pub replay_record : ℕ → Dict (Serializer A) → Turn → Store A → Pass Response × Store A
  unfolding replay_completed
  replay_record i serializers turn s =
      if turn.up
      then elim (get i s.requests) [
        | none ↦ (again, rolled_back turn s)
        | some r ↦
            if not (is_completed r)
            then (again, rolled_back turn s)
            else if leb r.expires_at turn.now
            then (again, record s { requests = delete i (turn.others s.requests) })
            else replay_completed r serializers turn s
      ]
      else (raised database_error, rolled_back turn s)

-- What one round of `execute` meets: the lease owner's fresh name, the time at which the claim
-- starts, the turns of its passes, and the turns of the replay or the run, and of a release.
pub record Round : Type 0 where
  pub owner : String
  pub started : ℕ
  pub claims : List Turn
  pub next : Turn
  pub after : Turn

module _ {A : Type 0} (resolved : ResolvedIdempotencyRequest) (policy : IdempotencyPolicy)
    (serializers : Dict (Serializer A)) (operation : A → Called A IdempotentOperationResult) where
  unfoldable pub after_claim : Pass Claim → Round → Store A → Pass Response × Store A
  after_claim (returned (claimed_request i owner stolen)) round s =
      execute_claimed_operation resolved i owner operation round.next round.after s
  after_claim (returned (replay_target i source)) round s =
      replay_record resolved i serializers round.next s
  after_claim (returned (in_progress_target wait)) round s =
      (raised (still_in_progress (some wait)), s)
  after_claim (raised e) round s = (raised e, s)
  after_claim again round s = (again, s)

  -- One round of the loop of `execute`.
  unfoldable pub execute_round : Round → Store A → Pass Response × Store A
  unfolding after_claim
  execute_round round s =
      let (claim, u) =
        claim_request resolved policy round.owner round.started round.claims s.requests in
      after_claim claim round (record s { requests = u })

  -- `execute`, from the resolved request on; `again` is a loop that has not ended yet.
  unfoldable pub execute : List Round → Store A → Pass Response × Store A
  execute [] s = (again, s)
  execute (round ∷ rounds) s = go_round (execute_round round s) (execute rounds)

-- A pass of `_renew_lease`: it tells whether the loop goes on. What goes wrong is logged.
unfoldable pub renew_pass : ℕ → String → IdempotencyPolicy → Turn → Table → Bool × Table
renew_pass i owner policy turn t =
    if turn.up
    then elim (get i t) [
      | none ↦ (false, turn.others t)
      | some r ↦
          if not (is_text r.lease_owner owner) || not (is_processing r)
          then (false, turn.others t)
          else elim (update i (renewed policy turn.now) (turn.others t)) [
            | none ↦ (true, turn.others t)
            | some u ↦ (true, u)
          ]
    ]
    else (true, turn.others t)

-- `_renew_lease`: the wait for the stop signal ends in the signal, or in a turn.
unfoldable pub renew_lease : ℕ → String → IdempotencyPolicy → List (Option Turn) → Table → Table
unfolding renew_pass
renew_lease i owner policy [] t = t
renew_lease i owner policy (none ∷ waits) t = t
renew_lease i owner policy (some turn ∷ waits) t =
    let (more, u) = renew_pass i owner policy turn t in
    let rest = renew_lease i owner policy waits u in if more then rest else u
