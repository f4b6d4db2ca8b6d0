-- ===== src/Workers/Contexts.antt =====
-- A task does not run under another task's correlation id.
use thryve_financial.Base.{
  ◌≡◌, refl, String, Option, none, List, [], ◌∷◌, map, arith, truthy, if◌then◌else◌,
}
use thryve_financial.Workers.{Worker, before_start, after_return, run_tasks}

-- The correlation id that a task brings, if it is not empty.
abbrev pub own_id : Option String → Option String
own_id id = if truthy id then id else none

-- On a worker without a correlation id, each task runs under its own, or under none if it brings
-- none, and after them all there is none again and as many tasks are in flight as before.
pub run_tasks_isolates :
    (ids : List (Option String)) (w : Worker)
    → w.correlation_id ≡ none
    → run_tasks ids w ≡ (map own_id ids, w)
unfolding run_tasks
run_tasks_isolates [] w idle = refl
run_tasks_isolates (id ∷ ids) w idle =
    ground (arith, idle, run_tasks_isolates ids (after_return (before_start id w)) refl)
