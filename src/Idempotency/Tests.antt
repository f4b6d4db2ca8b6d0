-- ===== src/Idempotency/Tests.antt =====
-- Runs of the executor at small inputs, and its theorems there.
use thryve_financial.Base.{
  Dict, ℕ, ◌+◌, ◌≡◌, ◌≢◌, refl, inl, String, true, false, none, some, [], ◌∷◌, ◌<◌, ◌⊎◌, arith,
  eq_iff, All, item,
}
use thryve_financial.Idempotency.Types.{
  IdempotencyPolicy, IdempotencyRequest, ResolvedIdempotencyRequest, IdempotentOperationResult,
  user, end, claimed_request, in_progress_target, payload_mismatch, still_in_progress,
  should_persist, seconds, scope_value,
}
use thryve_financial.Idempotency.Table.{Table, find, get, add}
use thryve_financial.Idempotency.Turn.{Turn, IsQuiet, returned, raised, again}
use thryve_financial.Idempotency.Claim.{new_record, claim_pass}
use thryve_financial.Idempotency.Claim.Exclusion.{
  IsHeld, claim_pass-Holds, claim_excludes, claim_refuses_mismatch,
}
use thryve_financial.Idempotency.Execute.{
  Serializer, Called, done, Round, release_claim, renew_pass, execute_claimed_operation,
  created_response, replayed_response, execute,
}
use thryve_financial.Idempotency.Execute.Once.{execute_twice}
use thryve_financial.Idempotency.Execute.Rollback.{execute_unkept}
use thryve_financial.Idempotency.Execute.Lease.{lost_lease}
use thryve_financial.Idempotency.Execute.Termination.{execute_ends}
use thryve_financial.Idempotency.Cleanup.{cleanup_expired_idempotency_requests}
use thryve_financial.Idempotency.Cleanup.Laws.{cleanup_completes}

abbrev import_request : ResolvedIdempotencyRequest
import_request = record {
  key = "k1";
  key_hash = "h1";
  scope = record { kind = user; subject = "u1" };
  endpoint = "POST:/import:import";
  fingerprint_hash = "f1";
  fingerprint_version = 1;
}

abbrev changed_request : ResolvedIdempotencyRequest
changed_request = record import_request { fingerprint_hash = "f2" }

abbrev pub day : IdempotencyPolicy
day = record { retention_seconds = 86400; processing_lease_seconds = 60; fingerprint_version = 1 }

abbrev pub turn_at : ℕ → ℕ → Turn
turn_at now id = record { now = now; fresh_id = id; up = true; others = λ t. t }

abbrev pub round_at : String → ℕ → Round
round_at owner now = record {
  owner = owner;
  started = now;
  claims = turn_at now 7 ∷ turn_at now 8 ∷ [];
  next = turn_at now 0;
  after = turn_at now 0;
}

-- The application's data here: how often the operation has run.
abbrev pub count_run : ℕ → ℕ → Called ℕ IdempotentOperationResult
count_run status n =
    done
      (record {
        response = record { status_code = status; headers = []; body = "imported" };
        result_ref = record { serializer = "import"; version = 1; reference = end };
        persist = none;
        result_type = none;
        error_code = none;
      })
      (n + 1)

abbrev pub imported : ℕ → IdempotentOperationResult
imported status = record {
  response = record { status_code = status; headers = []; body = "imported" };
  result_ref = record { serializer = "import"; version = 1; reference = end };
  persist = none;
  result_type = none;
  error_code = none;
}

abbrev pub say_imported : Serializer ℕ
say_imported n ref status kind =
    done (record { status_code = status; headers = []; body = "imported" }) n

abbrev pub serializers : Dict (Serializer ℕ)
serializers = ("import", say_imported) ∷ []

pub IsQuiet-turn : (now id : ℕ) → IsQuiet (turn_at now id) []
unfolding get
IsQuiet-turn now id = record { answers = refl; alone = λ u. refl; new_id = refl }

no_key : find (scope_value import_request.scope) "k1" [] ≡ none
unfolding find
no_key = refl

pub known_serializer : item serializers "import" ≡ some say_imported
unfolding item
known_serializer = refl

pub kept_result : should_persist (imported 200) ≡ true
unfolding should_persist
kept_result = refl

unkept_result : should_persist (imported 404) ≡ false
unfolding should_persist
unkept_result = refl

execute_twice_example :
    (u : Table) × (v : Table) × (execute import_request day serializers
        (count_run 200)
        (round_at "a" 0 ∷ [])
        (record { requests = []; app = 0 })
      ≡ (
        returned (created_response import_request true (imported 200).response),
        record { requests = u; app = 1 },
      ))
    × (execute import_request day serializers
          (count_run 200)
          (round_at "b" 5 ∷ [])
          (record { requests = u; app = 1 })
        ≡ (
          returned (replayed_response import_request (imported 200).response),
          record { requests = v; app = 1 },
        ))
execute_twice_example =
    execute_twice import_request day serializers (count_run 200) (imported 200) (round_at "a" 0) []
      (turn_at 0 7) (turn_at 0 8 ∷ []) [] 0 1 (round_at "b" 5) [] (turn_at 5 7) (turn_at 5 8 ∷ [])
      day (count_run 200) say_imported (imported 200).response 1 refl (IsQuiet-turn 0 7)
      (refl, λ u. refl) tt no_key refl kept_result refl (refl, λ u. refl) (refl, λ u. refl)
      (omega arith) (omega arith) known_serializer refl

execute_ends_example :
    (execute import_request day serializers
      (count_run 200)
      (round_at "a" 0 ∷ round_at "b" 5 ∷ [])
      (record { requests = []; app = 0 })).0
    ≢ again
execute_ends_example =
    execute_ends import_request day serializers (count_run 200) (round_at "a" 0) (round_at "b" 5)
      (turn_at 0 7) (turn_at 0 8) (turn_at 5 7) [] (turn_at 5 8 ∷ []) [] [] 0 refl refl
      (IsQuiet-turn 0 7) (IsQuiet-turn 0 8) (IsQuiet-turn 5 7) (refl, λ u. refl) tt

execute_unkept_example :
    execute import_request day serializers
      (count_run 404)
      (round_at "a" 0 ∷ [])
      (record { requests = []; app = 0 })
    ≡ (
      returned (created_response import_request false (imported 404).response),
      record { requests = []; app = 1 },
    )
execute_unkept_example =
    execute_unkept import_request day serializers (count_run 404) (round_at "a" 0) [] (turn_at 0 7)
      (turn_at 0 8 ∷ []) [] 0 (imported 404) 1 refl (IsQuiet-turn 0 7) (refl, λ u. refl) no_key refl
      unkept_result

abbrev claimed_row : IdempotencyRequest
claimed_row = new_record import_request day "a" (seconds 60) (turn_at 0 7)

claimed_first :
    claim_pass import_request day "a" (seconds 60) (turn_at 0 7) []
    ≡ (returned (claimed_request 7 "a" false), claimed_row ∷ [])
unfolding claim_pass find add
claimed_first = refl

claim_excludes_example :
    claim_pass import_request day "b" (seconds 70) (turn_at (seconds 10) 8) (claimed_row ∷ [])
    ≡ (returned (in_progress_target 50), claimed_row ∷ [])
claim_excludes_example =
    claim_excludes import_request import_request day day "a" "b" (seconds 60) (seconds 70)
      (turn_at 0 7) (turn_at (seconds 10) 8) [] (claimed_row ∷ []) 7 false refl tt claimed_first
      (refl, refl) refl refl refl (omega arith) (omega arith)

claim_refuses_mismatch_example :
    claim_pass changed_request day "b" (seconds 70) (turn_at (seconds 10) 8) (claimed_row ∷ [])
    ≡ (raised payload_mismatch, claimed_row ∷ [])
claim_refuses_mismatch_example =
    claim_refuses_mismatch import_request changed_request day day "a" "b" (seconds 60) (seconds 70)
      (turn_at 0 7) (turn_at (seconds 10) 8) [] (claimed_row ∷ []) 7 false refl tt claimed_first
      (refl, refl) (inl (ground (arith, eq_iff "f1" "f2"))) refl (omega arith)

IsHeld-first : IsHeld import_request "a" (seconds 60) (seconds 86400) 7 (claimed_row ∷ [])
IsHeld-first =
    claim_pass-Holds import_request day "a" (seconds 60) (turn_at 0 7) [] (claimed_row ∷ []) 7 false
      refl tt claimed_first

lost_lease_example :
    (renew_pass 7 "b" day (turn_at 5 0) (claimed_row ∷ []) ≡ (false, claimed_row ∷ []))
    × (release_claim 7 "b" (turn_at 5 0) (claimed_row ∷ []) ≡ claimed_row ∷ [])
    × (execute_claimed_operation import_request 7 "b"
          (count_run 200)
          (turn_at 5 0)
          (turn_at 5 0)
          (record { requests = claimed_row ∷ []; app = 0 })
        ≡ (raised (still_in_progress none), record { requests = claimed_row ∷ []; app = 0 }))
lost_lease_example =
    lost_lease import_request import_request day "b" "a" (seconds 60) (seconds 86400) 7
      (count_run 200) (turn_at 5 0) (turn_at 5 0) (claimed_row ∷ []) 0 IsHeld-first
      (ground (arith, eq_iff "a" "b")) (refl, λ u. refl) (refl, λ u. refl)

abbrev stolen_row : IdempotencyRequest
stolen_row = record claimed_row { lease_owner = some "b"; lease_expires_at = some (seconds 200) }

abbrev stealing : Turn
stealing = record { now = seconds 70; fresh_id = 0; up = true; others = λ t. stolen_row ∷ [] }

abbrev old_row : IdempotencyRequest
old_row = record claimed_row { id = 1; idempotency_key = "k0"; expires_at = 3 }

found_first : find "user:u1" "k1" (old_row ∷ claimed_row ∷ []) ≡ some claimed_row
unfolding find
found_first = refl

cleanup_completes_example :
    let (left, count) =
      cleanup_expired_idempotency_requests none 100 (turn_at 4 0) (old_row ∷ claimed_row ∷ []) in
    (count ≡ 100) ⊎ ((count < 100) × All (λ r. 4 < r.expires_at) left)
cleanup_completes_example =
    cleanup_completes none 100 (turn_at 4 0) (old_row ∷ claimed_row ∷ []) refl
