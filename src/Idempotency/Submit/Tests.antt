-- ===== src/Idempotency/Submit/Tests.antt =====
-- An import and a retry that writes it differently.
use thryve_financial.Base.{◌≡◌, refl, ◌∷◌, [], none, true, arith}
use thryve_financial.Idempotency.Types.{ResolvedIdempotencyRequest, user}
use thryve_financial.Idempotency.Table.{Table, find}
use thryve_financial.Idempotency.Turn.{returned}
use thryve_financial.Idempotency.Fingerprint.{canonical_json_text, resolve_request}
use thryve_financial.Idempotency.Fingerprint.Tests.{codec, import_call, retry, retry-IsSameCall}
use thryve_financial.Idempotency.Execute.{created_response, replayed_response}
use thryve_financial.Idempotency.Tests.{
  day, turn_at, round_at, count_run, imported, say_imported, serializers, IsQuiet-turn,
  known_serializer, kept_result,
}
use thryve_financial.Idempotency.Submit.{submit}
use thryve_financial.Idempotency.Submit.Retry.{submit_retry}

abbrev resolved : ResolvedIdempotencyRequest
resolved = record {
  key = "k";
  key_hash = "k";
  scope = record { kind = user; subject = "ada" };
  endpoint = "POST:/import:import";
  fingerprint_hash = "{\"a\":1}";
  fingerprint_version = 1;
}

submit_retry_example :
    (u : Table) × (v : Table) × (submit codec none day serializers import_call
        (count_run 200)
        (round_at "a" 0 ∷ [])
        (record { requests = []; app = 0 })
      ≡ (
        returned (created_response resolved true (imported 200).response),
        record { requests = u; app = 1 },
      ))
    × (submit codec none day serializers retry
          (count_run 200)
          (round_at "b" 5 ∷ [])
          (record { requests = u; app = 1 })
        ≡ (
          returned (replayed_response resolved (imported 200).response),
          record { requests = v; app = 1 },
        ))
submit_retry_example =
    submit_retry codec none day serializers (count_run 200) import_call retry resolved
      (imported 200) (round_at "a" 0) (round_at "b" 5) [] [] (turn_at 0 7) (turn_at 5 7)
      (turn_at 0 8 ∷ []) (turn_at 5 8 ∷ []) [] 0 1 1 say_imported (imported 200).response
      (unfold canonical_json_text in refl) retry-IsSameCall (unfold resolve_request in refl) refl
      (IsQuiet-turn 0 7) (refl, λ u. refl) tt (unfold find in refl) refl kept_result refl
      (refl, λ u. refl) (refl, λ u. refl) (omega arith) (omega arith) known_serializer refl
