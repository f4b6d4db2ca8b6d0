-- ===== src/Workers.antt =====
-- pfm/app/workers/base.py: how a task is handed to the broker, and what the base task does around one.
-- OpenTelemetry's `inject` and the fresh `uuid4` are parameters; log lines and spans are left out.
pub mod Contexts
mod Tests
use thryve_financial.Base.{
  ℕ, suc, ◌+◌, ◌-◌, String, Bool, Option, none, some, List, [], ◌∷◌, ◌++◌, Dict, item, set_item,
  truthy, or_text, if◌then◌else◌,
}
use thryve_financial.Idempotency.Resolution.{text_of}
use thryve_financial.Auth.Supabase.{Outcome, answered, error}

-- A message of the broker: `P` is the type of its keyword arguments.
pub record Message (P : Type 0) : Type 0 where
  pub task_name : String
  pub kwargs : P
  pub headers : Dict String
  pub options : Dict String

-- What a dispatch meets: the correlation id of the context, and whether the broker takes the message.
pub record Dispatching : Type 0 where
  pub correlation_id : Option String
  pub fresh_id : String
  pub inject : Dict String → Dict String
  pub is_accepted : Bool

abbrev pub task_id_of : Dispatching → Dict String → String
task_id_of d options = text_of (or_text (item options "task_id") (some d.fresh_id))

abbrev pub task_headers : Dispatching → Dict String → Dict String
task_headers d headers = d.inject (
    if truthy d.correlation_id
    then set_item headers "correlation_id" (text_of d.correlation_id)
    else headers)

-- `dispatch_task`, with the headers taken out of the options; it gives the id of the task, and what
-- the broker raises goes on to the caller.
unfoldable pub dispatch_task :
    {P : Type 0}
    → Dispatching
    → String
    → P
    → Dict String
    → Dict String
    → List (Message P)
    → Outcome String × List (Message P)
unfolding item set_item
dispatch_task d task_name kwargs headers options messages =
    let task_id = task_id_of d options in
    if d.is_accepted
    then (
      answered task_id,
      messages
          ++ (record {
            task_name = task_name;
            kwargs = kwargs;
            headers = task_headers d headers;
            options = set_item options "task_id" task_id;
          }
              ∷ []),
    )
    else (error, messages)

-- A worker process, which runs one task at a time: the correlation id of its context, and the count
-- of its tasks in flight.
pub record Worker : Type 0 where
  pub correlation_id : Option String
  pub in_flight : ℕ

-- `BaseTask.before_start`, of a task whose request has this correlation id.
abbrev pub before_start : Option String → Worker → Worker
before_start id w = record {
  correlation_id = if truthy id then id else w.correlation_id;
  in_flight = suc w.in_flight;
}

-- `BaseTask.after_return`, which Celery calls however the task ends.
abbrev pub after_return : Worker → Worker
after_return w = record { correlation_id = none; in_flight = w.in_flight - 1 }

-- The tasks of a worker one after another: the contexts in which their bodies run, and the worker
-- they leave.
unfoldable pub run_tasks : List (Option String) → Worker → List (Option String) × Worker
run_tasks [] w = ([], w)
run_tasks (id ∷ ids) w =
    let started = before_start id w in
    let rest = run_tasks ids (after_return started) in (started.correlation_id ∷ rest.0, rest.1)
