-- ===== src/Idempotency/Execute/Once.antt =====
-- A mutation runs once for its key: what the first execution records, a second one replays.
use thryve_financial.Base.{
  Dict, ℕ, ◌+◌, ◌<◌, ◌≡◌, refl, String, true, false, Option, none, some, List, ◌∷◌, arith, eq_iff,
  eq_refl, item, truthy, if◌then◌else◌,
}
use thryve_financial.Idempotency.Types.{
  IdempotencyPolicy, IdempotencyRequest, ResolvedIdempotencyRequest, IdempotencyResultRef,
  IdempotentOperationResult, Response, scope_value, replay_target, database, completed,
  should_persist, as_json, from_json, seconds,
}
use thryve_financial.Idempotency.Table.{Table, IsDistinct, find, get, set_row}
use thryve_financial.Idempotency.Table.Laws.{find-set_row, get-set_row, update_found}
use thryve_financial.Idempotency.Turn.{Turn, IsQuiet, returned}
use thryve_financial.Idempotency.Claim.{claim_pass, claim_loop, claim_request}
use thryve_financial.Idempotency.Claim.Exclusion.{IsHeld, claim_pass-Holds}
use thryve_financial.Idempotency.Claim.Termination.{claim_pass-absent}
use thryve_financial.Idempotency.Execute.{
  Serializer, Called, done, Round, recorded, counted, commit_result, run_claimed,
  execute_claimed_operation, created_response, replayed_response, replay_record, execute_round,
  execute,
}

-- Nobody else commits during the turn, and the database answers.
abbrev pub IsAlone : Turn → Type 0
IsAlone turn = (turn.up ≡ true) × ((u : Table) → turn.others u ≡ u)

-- The row of a key whose result is recorded.
pub record IsRecorded (resolved : ResolvedIdempotencyRequest) (result : IdempotentOperationResult)
    (expiry : ℕ) (u : Table) : Type 0 where
  pub row : IdempotencyRequest
  pub found : find (scope_value resolved.scope) resolved.key u ≡ some row
  pub by_id : get row.id u ≡ some row
  pub is_complete : row.status ≡ completed
  pub same_hash : row.fingerprint_hash ≡ resolved.fingerprint_hash
  pub same_version : row.fingerprint_version ≡ resolved.fingerprint_version
  pub kept_until : row.expires_at ≡ expiry
  pub its_ref : row.result_ref ≡ some (as_json result.result_ref)
  pub its_status : row.response_status_code ≡ some result.response.status_code
  pub its_type : row.result_type ≡ (
      if truthy result.result_type then result.result_type else some result.result_ref.serializer)

-- A stored reference is read back as it was.
pub from_json-as_json : (r : IdempotencyResultRef) → from_json (as_json r) ≡ some r
unfolding from_json as_json
from_json-as_json r = refl

module _ {A : Type 0} (resolved : ResolvedIdempotencyRequest) (owner : String)
    (lease_end expiry i : ℕ) (operation : A → Called A IdempotentOperationResult) (turn : Turn)
    (t : Table) (app app' : A) (result : IdempotentOperationResult) where
  -- The holder of a key that runs an operation to a result that persists records the result.
  pub run_claimed-records :
      IsHeld resolved owner lease_end expiry i t
      → IsAlone turn
      → operation app ≡ done result app'
      → should_persist result ≡ true
      → (u : Table) × (run_claimed resolved i owner operation turn
            (record { requests = t; app = app })
          ≡ (
            returned (created_response resolved true result.response),
            record { requests = u; app = app' },
          ))
        × IsRecorded resolved result expiry u
  unfolding run_claimed commit_result
  run_claimed-records held alone ran persists =
      let change = recorded result in
      let row = held.row in
      (
        set_row i change t,
        ground (
          arith,
          held.by_id,
          held.held_by,
          eq_refl owner,
          alone.1 t,
          update_found i change t row held.by_id,
        ),
        record {
          row = change row;
          found = ground (
            arith,
            find-set_row (scope_value resolved.scope) resolved.key i change t (λ x. refl),
            held.found,
            held.its_id,
          );
          by_id = ground (arith, get-set_row i change t (λ x. refl), held.by_id, held.its_id);
          is_complete = refl;
          same_hash = held.same_hash;
          same_version = held.same_version;
          kept_until = held.kept_until;
          its_ref = refl;
          its_status = refl;
          its_type = refl;
        },
      )

module _ {A : Type 0} (resolved : ResolvedIdempotencyRequest) (policy : IdempotencyPolicy)
    (serializers : Dict (Serializer A)) (operation : A → Called A IdempotentOperationResult)
    (result : IdempotentOperationResult) (expiry : ℕ) (build_response : Serializer A)
    (response : Response) (app app' : A) (u : Table) where
  claim_finds_record :
      (owner : String) (lease_end : ℕ) (turn : Turn)
      → IsAlone turn
      → turn.now < expiry
      → (r : IsRecorded resolved result expiry u)
      → claim_pass resolved policy owner lease_end turn u
        ≡ (returned (replay_target r.row.id database), u)
  unfolding claim_pass
  claim_finds_record owner lease_end turn alone kept r =
      let row = r.row in
      rw (alone.0, r.found)
        (ground (
          arith,
          r.is_complete,
          r.same_hash,
          r.same_version,
          eq_iff row.fingerprint_hash resolved.fingerprint_hash,
          r.kept_until,
          alone.1 u,
        ))

  replay_record-replays :
      (turn : Turn)
      → IsAlone turn
      → turn.now < expiry
      → (r : IsRecorded resolved result expiry u)
      → item serializers result.result_ref.serializer ≡ some build_response
      → build_response app result.result_ref result.response.status_code r.row.result_type
        ≡ done response app'
      → replay_record resolved r.row.id serializers turn (record { requests = u; app = app }) ≡ (
        returned (replayed_response resolved response),
        record { requests = set_row r.row.id (counted r.row turn.now) u; app = app' },
      )
  unfolding replay_record
  replay_record-replays turn alone kept r known built =
      let row = r.row in
      ground (
        arith,
        alone.0,
        alone.1 u,
        r.by_id,
        r.is_complete,
        r.same_hash,
        r.same_version,
        r.kept_until,
        r.its_ref,
        r.its_status,
        from_json-as_json result.result_ref,
        known,
        built,
        update_found row.id (counted row turn.now) u row r.by_id,
        eq_iff row.fingerprint_hash resolved.fingerprint_hash,
      )

  -- A request whose key has a recorded result is answered by the serializer: the operation that it
  -- brings is not run.
  pub execute-IsRecorded :
      (round : Round) (rounds : List Round) (c : Turn) (cs : List Turn)
      → round.claims ≡ c ∷ cs
      → IsAlone c
      → IsAlone round.next
      → c.now < expiry
      → round.next.now < expiry
      → (r : IsRecorded resolved result expiry u)
      → item serializers result.result_ref.serializer ≡ some build_response
      → build_response app result.result_ref result.response.status_code r.row.result_type
        ≡ done response app'
      → execute resolved policy serializers operation
          (round ∷ rounds)
          (record { requests = u; app = app })
        ≡ (
          returned (replayed_response resolved response),
          record { requests = set_row r.row.id (counted r.row round.next.now) u; app = app' },
        )
  unfolding execute execute_round claim_request claim_loop
  execute-IsRecorded round rounds c cs claims alone alone' kept kept' r known built =
      rw
        (
          claims,
          claim_finds_record round.owner _ c alone kept r,
          replay_record-replays round.next alone' kept' r known built,
        )
        refl

module _ {A : Type 0} (resolved : ResolvedIdempotencyRequest) (policy : IdempotencyPolicy)
    (serializers : Dict (Serializer A)) (operation : A → Called A IdempotentOperationResult)
    (result : IdempotentOperationResult) (round : Round) (rounds : List Round) (c : Turn)
    (cs : List Turn) (t : Table) (app app' : A) where
  -- The first execution with a key runs the operation once and records its result.
  pub execute-records :
      round.claims ≡ c ∷ cs
      → IsQuiet c t
      → IsAlone round.next
      → IsDistinct t
      → find (scope_value resolved.scope) resolved.key t ≡ none
      → operation app ≡ done result app'
      → should_persist result ≡ true
      → (u : Table) × (execute resolved policy serializers operation
            (round ∷ rounds)
            (record { requests = t; app = app })
          ≡ (
            returned (created_response resolved true result.response),
            record { requests = u; app = app' },
          ))
        × IsRecorded resolved result (c.now + seconds policy.retention_seconds) u
  unfolding execute execute_round claim_request claim_loop execute_claimed_operation
  execute-records claims quiet alone d free ran persists =
      let until = round.started + seconds policy.processing_lease_seconds in
      let first = claim_pass-absent resolved policy round.owner until c t quiet free in
      let held =
        claim_pass-Holds resolved policy round.owner until c t _ c.fresh_id false (quiet.alone t) d
          first in
      let (u, run, kept) =
        run_claimed-records resolved round.owner until _ c.fresh_id operation round.next _ app app'
          result held alone ran persists in
      (u, rw (claims, first, run) refl, kept)

  module _ (rival : Round) (rivals : List Round) (c' : Turn) (cs' : List Turn)
      (policy' : IdempotencyPolicy) (operation' : A → Called A IdempotentOperationResult)
      (build_response : Serializer A) (response : Response) (app'' : A) where
    abbrev pub type_of_result : Option String
    type_of_result =
        if truthy result.result_type then result.result_type else some result.result_ref.serializer

    -- The first execution with a key runs its operation; a second one with the same resolved
    -- request, whatever operation it brings, answers with the serializer's response and leaves
    -- the data that the serializer leaves.
    pub execute_twice :
        round.claims ≡ c ∷ cs
        → IsQuiet c t
        → IsAlone round.next
        → IsDistinct t
        → find (scope_value resolved.scope) resolved.key t ≡ none
        → operation app ≡ done result app'
        → should_persist result ≡ true
        → rival.claims ≡ c' ∷ cs'
        → IsAlone c'
        → IsAlone rival.next
        → c'.now < c.now + seconds policy.retention_seconds
        → rival.next.now < c.now + seconds policy.retention_seconds
        → item serializers result.result_ref.serializer ≡ some build_response
        → build_response app' result.result_ref result.response.status_code type_of_result
          ≡ done response app''
        → (u : Table) × (v : Table) × (execute resolved policy serializers operation
              (round ∷ rounds)
              (record { requests = t; app = app })
            ≡ (
              returned (created_response resolved true result.response),
              record { requests = u; app = app' },
            ))
          × (execute resolved policy' serializers operation'
                (rival ∷ rivals)
                (record { requests = u; app = app' })
              ≡ (
                returned (replayed_response resolved response),
                record { requests = v; app = app'' },
              ))
    execute_twice claims quiet alone d free ran persists claims' quiet' alone' kept kept' known
          built =
        let (u, run, r) = execute-records claims quiet alone d free ran persists in
        (
          u,
          set_row r.row.id (counted r.row rival.next.now) u,
          run,
          execute-IsRecorded resolved policy' serializers operation' result _ build_response
              response app' app'' u rival rivals c' cs' claims' quiet' alone' kept kept' r known
              (rw r.its_type built),
        )
