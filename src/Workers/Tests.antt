-- ===== src/Workers/Tests.antt =====
-- A worker with two tasks, of which one brings no correlation id.
use thryve_financial.Base.{◌≡◌, refl, none, some, [], ◌∷◌, map}
use thryve_financial.Workers.{Worker, run_tasks}
use thryve_financial.Workers.Contexts.{own_id, run_tasks_isolates}

abbrev idle : Worker
idle = record { correlation_id = none; in_flight = 0 }

seen : (run_tasks (some "a" ∷ some "" ∷ []) idle).0 ≡ some "a" ∷ none ∷ []
unfolding run_tasks
seen = refl

run_tasks_isolates_example :
    run_tasks (some "a" ∷ none ∷ []) idle ≡ (map own_id (some "a" ∷ none ∷ []), idle)
run_tasks_isolates_example = run_tasks_isolates (some "a" ∷ none ∷ []) idle refl
