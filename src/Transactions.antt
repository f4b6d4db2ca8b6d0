-- ===== src/Transactions.antt =====
-- pfm/app/clients/plaid.py, pfm/app/services/transactions.py and pfm/app/api/transactions.py: the import of
-- transactions, behind its authentication. `json` is what `response.json()` reads of a response, and
-- none its error. The bodies of the requests to Plaid are left out.
pub mod Imports
mod Tests
use thryve_financial.Base.{
  ℕ, String, Bool, false, Option, none, some, List, [], ◌∷◌, length, if◌then◌else◌,
}
use thryve_financial.Problem.{ProblemUpstream, unset, built}
use thryve_financial.Problem.Classes.{idempotency_key_required_error}
use thryve_financial.Problem.Factories.{dependency_unavailable}
use thryve_financial.Clients.{BaseClient, Response, Answer, returned, raised, request, own_upstream}
use thryve_financial.Clients as Clients
use thryve_financial.Auth.Json.{
  JsonValue, array, JsonItems, no_items, item_then, JsonFields, Conversions, get_field, as_object,
  as_text, is_true,
}
use thryve_financial.Auth.Supabase.{Outcome, answered, problem, error}
use thryve_financial.Idempotency.Resolution.{MutationRequest, passes_gate}
use thryve_financial.Workers.{Message, Dispatching, dispatch_task}

pub record PlaidTransactionsSyncResult : Type 0 where
  pub added : List JsonFields
  pub next_cursor : Option String
  pub has_more : Bool

abbrev pub plaid_client : BaseClient
plaid_client = record { service_name = "plaid"; max_retries = 3; backoff_factor = 1 }

-- The items as dictionaries; none is the `ValidationError` of an item that is not one.
unfoldable pub dictionaries : JsonItems → Option (List JsonFields)
dictionaries no_items = some []
dictionaries (item_then v vs) = elim (as_object v) [
  | none ↦ none
  | some d ↦ elim (dictionaries vs) [ none ↦ none | some ds ↦ some (d ∷ ds) ]
]

-- `added` where it is a list, and no items else.
abbrev pub added_items : JsonValue → JsonItems
added_items v = elim v [ array items ↦ items | _ ↦ no_items ]

-- The keyword arguments of the task.
pub record Categorization : Type 0 where
  pub transactions : List JsonFields
  pub source : String

-- What `categorize_transactions_task` of pfm/app/workers/categorization_tasks.py returns.
pub record CategorizationReport : Type 0 where
  pub source : String
  pub received : ℕ
  pub categorized : ℕ

abbrev pub categorize_transactions : Categorization → CategorizationReport
categorize_transactions c = record {
  source = c.source;
  received = length c.transactions;
  categorized = length c.transactions;
}

pub record TransactionImportResult : Type 0 where
  pub task_id : String
  pub imported_count : ℕ
  pub next_cursor : Option String
  pub has_more : Bool

abbrev pub Queue : Type 0
Queue = List (Message Categorization)

abbrev pub import_result :
    PlaidTransactionsSyncResult → Outcome String × Queue → Outcome TransactionImportResult × Queue
import_result s (problem p, messages) = (problem p, messages)
import_result s (error, messages) = (error, messages)
import_result s (answered task_id, messages) = (
  answered (record {
    task_id = task_id;
    imported_count = length s.added;
    next_cursor = s.next_cursor;
    has_more = s.has_more;
  }),
  messages,
)

module _ (capitalize : String → String) (conversions : Conversions)
    (json : Response → Option JsonValue) where
  abbrev pub sync_fields : JsonFields → Outcome PlaidTransactionsSyncResult
  unfolding dictionaries get_field
  sync_fields payload = elim (dictionaries (added_items (get_field payload "added"))) [
    | none ↦ error
    | some added ↦ answered (record {
      added = added;
      next_cursor = as_text (get_field payload "next_cursor");
      has_more = is_true conversions (get_field payload "has_more");
    })
  ]

  abbrev pub sync_payload : Option JsonValue → Outcome PlaidTransactionsSyncResult
  unfolding sync_fields dependency_unavailable
  sync_payload none = error
  sync_payload (some v) = elim (as_object v) [
    | none ↦ problem (
        dependency_unavailable capitalize "plaid" (some (own_upstream plaid_client))
          (some "Plaid returned an invalid transactions sync payload.") none none)
    | some payload ↦ sync_fields payload
  ]

  abbrev pub synced : Clients.Outcome → Outcome PlaidTransactionsSyncResult
  unfolding sync_payload
  synced (raised p) = problem p
  synced (returned r) = sync_payload (json r)

  -- `PlaidClient.sync_transactions`, given what each attempt gets.
  unfoldable pub sync_transactions : (ℕ → Answer) → Outcome PlaidTransactionsSyncResult
  unfolding request synced
  sync_transactions answer = synced (request capitalize plaid_client answer).outcome

  abbrev pub enqueued :
      Dispatching
      → Queue
      → Outcome PlaidTransactionsSyncResult
      → Outcome TransactionImportResult × Queue
  unfolding dispatch_task
  enqueued d messages (problem p) = (problem p, messages)
  enqueued d messages error = (error, messages)
  enqueued d messages (answered s) = import_result s (
      dispatch_task d "app.workers.categorization_tasks.categorize_transactions"
        (record { transactions = s.added; source = "plaid" }) [] (("queue", "default") ∷ [])
        messages)

  -- `TransactionImportService.import_transactions`
  unfoldable pub import_transactions :
      (ℕ → Answer) → Dispatching → Queue → Outcome TransactionImportResult × Queue
  unfolding sync_transactions enqueued
  import_transactions answer d messages = enqueued d messages (sync_transactions answer)

  -- The route of the class `IdempotencyRoute`.
  unfoldable pub import_route :
      MutationRequest → (ℕ → Answer) → Dispatching → Queue → Outcome TransactionImportResult × Queue
  unfolding import_transactions
  import_route r answer d messages =
      if passes_gate false r
      then import_transactions answer d messages
      else (problem (some (built idempotency_key_required_error unset)), messages)
