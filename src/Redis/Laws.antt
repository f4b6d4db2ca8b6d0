-- ===== src/Redis/Laws.antt =====
-- The published client: its connection, its generation, and its end.
use thryve_financial.Base.{
  ◌+◌, ◌<◌, ◌≡◌, ◌⊎◌, inr, refl, ltb, if◌then◌else◌, true, false, none, some, List, [], ◌∷◌, arith,
  is_some,
}
use thryve_financial.Redis.{
  World, Network, err, service_stopped, Call, starts, ensures, requires, stops,
  start_retry_cooldown, new_service, start, ensure_started, require_client, raw_client, step, run,
  start_done, start_failed,
}

-- The open connections are the published client's, a stopped service has no client, and a service
-- with a client has no failed start on record.
pub record IsSound (w : World) : Type 0 where
  pub connected : w.connections ≡ elim w.client [ none ↦ [] | some c ↦ c ∷ [] ]
  pub down : w.stopped ≡ true → w.client ≡ none
  pub clean : is_some w.client ≡ true → w.last_start_failure_at ≡ none

step-IsSound : (w : World) (c : Call) → IsSound w → IsSound (step w c)
unfolding step
step-IsSound w (starts net) v = ground arith
step-IsSound w (ensures net) v = ground arith
step-IsSound w (requires net) v = ground arith
step-IsSound w stops v = ground arith

run-IsSound : (w : World) (calls : List Call) → IsSound w → IsSound (run w calls)
unfolding run
run-IsSound w [] v = v
run-IsSound w (c ∷ calls) v = run-IsSound (step w c) calls (step-IsSound w c v)

-- After any calls on a new service, the open connections are the published client's alone, a
-- stopped service has no client, and one with a client has no failed start on record.
pub run-new_service-IsSound : (calls : List Call) → IsSound (run new_service calls)
run-new_service-IsSound calls =
    run-IsSound new_service calls (record { connected = refl; down = λ h. refl; clean = λ h. refl })

-- A later world has a higher generation, or the same one and the same client.
abbrev pub Follows : World → World → Type 0
Follows w v =
    (w.backend_generation < v.backend_generation)
    ⊎ ((v.backend_generation ≡ w.backend_generation) × (v.client ≡ w.client))

pub step-Follows : (w : World) (c : Call) → Follows w (step w c)
unfolding step
step-Follows w (starts net) = ground arith
step-Follows w (ensures net) = ground arith
step-Follows w (requires net) = ground arith
step-Follows w stops = ground arith

-- Whatever is called, the generation has risen, or both it and the published client are the same.
pub run_generation :
    (w : World) (calls : List Call)
    → (w.backend_generation < (run w calls).backend_generation)
      ⊎ (((run w calls).backend_generation ≡ w.backend_generation)
          × ((run w calls).client ≡ w.client))
unfolding run
run_generation w [] = inr (refl, refl)
run_generation w (c ∷ calls) = ground (arith, step-Follows w c, run_generation (step w c) calls)

abbrev IsDown : World → Type 0
IsDown w = (w.stopped ≡ true) × (w.client ≡ none)

step-IsDown : (w : World) (c : Call) → IsDown w → IsDown (step w c)
unfolding step
step-IsDown w (starts net) d = ground arith
step-IsDown w (ensures net) d = ground arith
step-IsDown w (requires net) d = ground arith
step-IsDown w stops d = ground arith

run-IsDown : (w : World) (calls : List Call) → IsDown w → IsDown (run w calls)
unfolding run
run-IsDown w [] d = d
run-IsDown w (c ∷ calls) d = run-IsDown (step w c) calls (step-IsDown w c d)

-- A stop is final: whatever is called afterwards, a start and a request for the client raise that
-- the service is stopped, and a recovery answers no; none of them changes the world.
pub stop_final :
    (w : World) (calls : List Call) (net : Network) (meanwhile : World → World)
    → ((v : World) → meanwhile v ≡ v)
    → let v = run (step w stops) calls in
      (start net meanwhile v ≡ (err service_stopped, v))
      × (ensure_started net meanwhile v ≡ (false, v))
      × (require_client net meanwhile v ≡ (err service_stopped, v))
      × (raw_client v.service ≡ err service_stopped)
unfolding start ensure_started require_client raw_client
stop_final w calls net meanwhile quiet =
    let v = run (step w stops) calls in
    let down : IsDown v = run-IsDown (step w stops) calls (unfold step in ground arith) in
    ground (arith, down, quiet v)

-- After a failed start, a recovery within the cooldown answers no and tries nothing; a later one
-- publishes a client if its ping is answered, and else records its own failure.
pub cooldown_after_failure :
    (w : World) (fails later : Network) (meanwhile : World → World)
    → w.client ≡ none
    → w.stopped ≡ false
    → fails.answers ≡ false
    → ((v : World) → meanwhile v ≡ v)
    → let v = (start fails meanwhile w).1 in
      ensure_started later meanwhile v ≡ (
        if ltb later.now (fails.now + start_retry_cooldown)
        then (false, v)
        else if later.answers
        then (true, start_done later v)
        else (false, start_failed later v))
unfolding start ensure_started
cooldown_after_failure w fails later meanwhile idle running broken quiet =
    ground (arith, quiet w, quiet (start_failed fails w))
