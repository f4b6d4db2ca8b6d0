-- ===== src/Redis/Tests.antt =====
-- The client's life at small inputs.
use thryve_financial.Base.{ℕ, true, false, List, [], ◌∷◌}
use thryve_financial.Redis.{Network, Call, starts, ensures, stops, new_service, run}
use thryve_financial.Redis.Laws.{IsSound, run-new_service-IsSound}

abbrev up : ℕ → Network
up c = record { connection = c; answers = true; now = 0 }

abbrev down : Network
down = record { connection = 9; answers = false; now = 5 }

abbrev calls : List Call
calls = starts down ∷ ensures (record (up 1) { now = 2000000 }) ∷ stops ∷ []

run-new_service-IsSound_example : IsSound (run new_service calls)
run-new_service-IsSound_example = run-new_service-IsSound calls
