-- ===== src/Transactions/Imports.antt =====
-- What an import puts into the queue.
use thryve_financial.Base.{
  ◌≡◌, refl, ap, subst, ◌∙◌, ℕ, ◌+◌, String, true, false, Option, some, [], ◌∷◌, ◌++◌, length,
  length-append, arith, item, set_item, Bool, if◌then◌else◌,
}
use thryve_financial.Problem.{unset, built}
use thryve_financial.Problem.Classes.{idempotency_key_required_error}
use thryve_financial.Auth.Json.{JsonValue, Conversions}
use thryve_financial.Auth.Supabase.{Outcome, answered, problem, error}
use thryve_financial.Clients.{Response, Answer}
use thryve_financial.Idempotency.Resolution.{MutationRequest, passes_gate}
use thryve_financial.Workers.{Message, Dispatching, task_headers, task_id_of}
use thryve_financial.Transactions.{
  Queue, Categorization, categorize_transactions, import_result, PlaidTransactionsSyncResult,
  TransactionImportResult, sync_transactions, enqueued, import_transactions, import_route,
}

-- What has happened to the queue: an import that is answered has put one task behind it, with the id
-- that it answers and all the transactions that Plaid gave; any other has left it.
abbrev pub Enqueues :
    Queue → Outcome PlaidTransactionsSyncResult → Outcome TransactionImportResult × Queue → Type 0
Enqueues messages s (problem p, after) = after ≡ messages
Enqueues messages s (error, after) = after ≡ messages
Enqueues messages s (answered r, after) =
    (page : PlaidTransactionsSyncResult) × (m : Message Categorization) × (s ≡ answered page)
    × (after ≡ messages ++ (m ∷ []))
    × (item m.options "task_id" ≡ some r.task_id)
    × (m.kwargs.transactions ≡ page.added)
    × ((categorize_transactions m.kwargs).received ≡ r.imported_count)

module _ (capitalize : String → String) (conversions : Conversions)
    (json : Response → Option JsonValue) where
  enqueued-Enqueues :
      (d : Dispatching) (messages : Queue) (s : Outcome PlaidTransactionsSyncResult)
      → Enqueues messages s (enqueued capitalize conversions json d messages s)
  unfolding enqueued
  enqueued-Enqueues d messages (problem p) = refl
  enqueued-Enqueues d messages error = refl
  enqueued-Enqueues d messages (answered s) = taken d.is_accepted
    where
      sent : Message Categorization
      sent = record {
        task_name = "app.workers.categorization_tasks.categorize_transactions";
        kwargs = record { transactions = s.added; source = "plaid" };
        headers = task_headers d [];
        options =
            set_item (("queue", "default") ∷ []) "task_id"
              (task_id_of d (("queue", "default") ∷ []));
      }

      taken :
          (accepted : Bool)
          → Enqueues messages (answered s) (
              import_result s (
                if accepted
                then (answered (task_id_of d (("queue", "default") ∷ [])), messages ++ (sent ∷ []))
                else (error, messages)))
      taken true = (s, sent, refl, refl, refl, refl, refl)
      taken false = refl

  -- An import that is answered has put exactly one task behind the queue, whose id is the
  -- answer's, with all the transactions of the page that Plaid gave, and that reports as many
  -- received as the answer says;
  -- an import that raises, whatever raised, has left the queue as it was.
  pub import_transactions-Enqueues :
      (answer : ℕ → Answer) (d : Dispatching) (messages : Queue)
      → Enqueues messages
          (sync_transactions capitalize conversions json answer)
          (import_transactions capitalize conversions json answer d messages)
  unfolding import_transactions
  import_transactions-Enqueues answer d messages =
      enqueued-Enqueues d messages (sync_transactions capitalize conversions json answer)

  answered_grows :
      (answer : ℕ → Answer) (d : Dispatching) (messages after : Queue)
      (result : TransactionImportResult) (passed : Bool)
      → (if passed
          then import_transactions capitalize conversions json answer d messages
          else (problem (some (built idempotency_key_required_error unset)), messages))
        ≡ (answered result, after)
      → length after ≡ length messages + 1
  answered_grows answer d messages after result false e = ground (arith, e)
  answered_grows answer d messages after result true e =
      let s = sync_transactions capitalize conversions json answer in
      let (page, m, known, grown, id, all, count) =
        subst (Enqueues messages s) e (import_transactions-Enqueues answer d messages) in
      ap length grown ∙ length-append messages (m ∷ [])

  -- If a request to import is answered, and so is the same request again, with the same key, then
  -- both have enqueued a task.
  pub import_repeats :
      (r : MutationRequest) (answer later : ℕ → Answer) (d retried : Dispatching)
      (messages between after : Queue) (result repeated : TransactionImportResult)
      → import_route capitalize conversions json r answer d messages ≡ (answered result, between)
      → import_route capitalize conversions json r later retried between
        ≡ (answered repeated, after)
      → length after ≡ length messages + 2
  unfolding import_route
  import_repeats r answer later d retried messages between after result repeated once twice =
      ground (
        arith,
        answered_grows answer d messages between result (passes_gate false r) once,
        answered_grows later retried between after repeated (passes_gate false r) twice,
      )
