-- ===== src/Transactions/Tests.antt =====
-- An import of one transaction, and its retry.
use thryve_financial.Base.{◌≡◌, refl, ℕ, String, false, true, none, some, [], length, Option}
use thryve_financial.Clients.{Answer, Response, answered, settled}
use thryve_financial.Auth.Json.{
  JsonValue, object, array, no_items, item_then, JsonFields, no_fields, field_then, boolean,
  Conversions,
}
use thryve_financial.Auth.Supabase.Flows.{field}
use thryve_financial.Auth.Supabase as Supabase
use thryve_financial.Idempotency.Resolution.{MutationRequest}
use thryve_financial.Workers.{Dispatching}
use thryve_financial.Transactions.{
  Queue, TransactionImportResult, import_transactions, import_route, sync_transactions,
}
use thryve_financial.Transactions.Imports.{Enqueues, import_transactions-Enqueues, import_repeats}

abbrev same : String → String
same s = s

abbrev conversions : Conversions
conversions = record { show = λ v. ""; truncate = λ v. none; is_zero_float = λ f. false }

abbrev coffee : JsonFields
coffee = field "name" "Coffee" no_fields

-- A page with one transaction.
abbrev page : Response → Option JsonValue
page r = some (
    object (
      field_then "added" (array (item_then (object coffee) no_items))
        (field "next_cursor" "c2" (field_then "has_more" (boolean true) no_fields))))

abbrev answer : ℕ → Answer
answer n = answered (record {
  status_code = 200;
  request_id_header = none;
  x_request_id_header = none;
  payload = none;
})

abbrev dispatching : String → Dispatching
dispatching id = record {
  correlation_id = some "r1";
  fresh_id = id;
  inject = λ headers. headers;
  is_accepted = true;
}

abbrev import_again : MutationRequest
import_again = record {
  method = "POST";
  idempotency_key = some "k";
  user_id = some "ada";
  anonymous_id = none;
  route_path = "/transactions/import";
  route_name = some "import_transactions";
  path_params = [];
  query_params = [];
  content_type = "application/json";
  body = "{}";
}

abbrev result : String → TransactionImportResult
result id = record { task_id = id; imported_count = 1; next_cursor = some "c2"; has_more = true }

abbrev import_as : String → Queue → Supabase.Outcome TransactionImportResult × Queue
import_as id = import_route same conversions page import_again answer (dispatching id)

import_transactions-Enqueues_example :
    Enqueues []
      (sync_transactions same conversions page answer)
      (import_transactions same conversions page answer (dispatching "t1") [])
import_transactions-Enqueues_example =
    import_transactions-Enqueues same conversions page answer (dispatching "t1") []

import_repeats_example : length (import_as "t2" (import_as "t1" []).1).1 ≡ 2
unfolding settled
import_repeats_example =
    import_repeats same conversions page import_again answer answer (dispatching "t1")
      (dispatching "t2") [] (import_as "t1" []).1 (import_as "t2" (import_as "t1" []).1).1
      (result "t1") (result "t2") (unfold import_route in refl) (unfold import_route in refl)
