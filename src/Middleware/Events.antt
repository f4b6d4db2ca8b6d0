-- ===== src/Middleware/Events.antt =====
-- The events of the request log.
use thryve_financial.Base.{ℕ, true, false, Option, List, [], ◌∷◌, if◌then◌else◌}
use thryve_financial.Middleware.{
  Raised, Receipt, Sent, response_start, response_body, other_message, RequestContext, Run, returns,
  raises, receives, sends, reads, writes, logs, Scope, is_exception, CompletionEvent,
}
use thryve_financial.Middleware.Stack.{event}
use thryve_financial.Middleware.Serve.{Trace, Ending, returned, raised, waiting}

-- An application that logs no completion event of its own.
abbrev pub IsSilent : Run → Type 0
IsSilent returns = Unit
IsSilent (raises r) = Unit
IsSilent (receives k) = (r : Receipt) → IsSilent (k r)
IsSilent (sends m k) = (e : Option Raised) → IsSilent (k e)
IsSilent (reads k) = (c : RequestContext) → IsSilent (k c)
IsSilent (writes c k) = IsSilent k
IsSilent (logs e k) = ⊥

abbrev pub closing : Scope → ℕ → Ending → List CompletionEvent
closing scope status returned = []
closing scope status waiting = []
closing scope status (raised r) = if is_exception r then event scope status ∷ [] else []

-- The events of a request that sends these messages and ends so: one with the status of the last
-- response start, at the first end of a body, or at an exception before it.
abbrev pub expected : Scope → ℕ → List Sent → Ending → List CompletionEvent
expected scope status [] ending = closing scope status ending
expected scope status (response_start code headers ∷ ms) ending = expected scope code ms ending
expected scope status (response_body b false ∷ ms) ending = event scope status ∷ []
expected scope status (response_body b true ∷ ms) ending = expected scope status ms ending
expected scope status (other_message s ∷ ms) ending = expected scope status ms ending

-- A trace with its events replaced.
abbrev pub reported : List CompletionEvent → Trace → Trace
reported events t = record t { events = events }

-- The events expected of a trace.
abbrev pub expected_of : Scope → ℕ → Trace → Trace
expected_of scope status t = reported (expected scope status t.sent t.ending) t
