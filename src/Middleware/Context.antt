-- ===== src/Middleware/Context.antt =====
-- The identities of a request's context.
use thryve_financial.Base.{◌≡◌, ◌≢◌, refl, ap, String, Option, none, List, [], ◌∷◌, arith, item}
use thryve_financial.Middleware.{
  Sent, CompletionEvent, RequestContext, Run, returns, raises, receives, sends, reads, writes, logs,
  Scope, ScopeType, http, websocket, lifespan,
}
use thryve_financial.Middleware.Stack.{
  clearing, identified, anonymous_id_of, run_of_type, user_context,
}
use thryve_financial.Middleware.Serve.{
  Turn, Trace, Ending, returned, raised, waiting, serve, sending, logging,
}

-- A trace that has ended leaves no identity.
abbrev LeavesNone : Trace → Ending → Type 0
LeavesNone t waiting = Unit
LeavesNone t returned = (t.context.user_id ≡ none) × (t.context.anonymous_id ≡ none)
LeavesNone t (raised r) = (t.context.user_id ≡ none) × (t.context.anonymous_id ≡ none)

abbrev pub HasNoIdentity : Trace → Type 0
HasNoIdentity t = LeavesNone t t.ending

after_send : (m : Sent) (t : Trace) → HasNoIdentity t → HasNoIdentity (sending m t)
after_send m t h = ground (arith, h)

after_log : (e : CompletionEvent) (t : Trace) → HasNoIdentity t → HasNoIdentity (logging e t)
after_log e t h = ground (arith, h)

clearing-HasNoIdentity :
    (app : Run) (c : RequestContext) (ts : List Turn) → HasNoIdentity (serve (clearing app) c ts)
unfolding serve clearing
clearing-HasNoIdentity returns c ts = (refl, refl)
clearing-HasNoIdentity (raises r) c ts = (refl, refl)
clearing-HasNoIdentity (receives k) c [] = tt
clearing-HasNoIdentity (receives k) c (t ∷ ts) = clearing-HasNoIdentity (k t.receipt) c ts
clearing-HasNoIdentity (sends m k) c [] = tt
clearing-HasNoIdentity (sends m k) c (t ∷ ts) =
    after_send m (serve (clearing (k t.send_error)) c ts)
      (clearing-HasNoIdentity (k t.send_error) c ts)
clearing-HasNoIdentity (reads k) c ts = clearing-HasNoIdentity (k c) c ts
clearing-HasNoIdentity (writes d k) c ts = clearing-HasNoIdentity k d ts
clearing-HasNoIdentity (logs e k) c ts =
    after_log e (serve (clearing k) c ts) (clearing-HasNoIdentity k c ts)

-- The trace of a request between the two clearings.
identified_isolates :
    (header : Option String) (app : Run) (c d : RequestContext) (ts : List Turn)
    → c.correlation_id ≡ d.correlation_id
    → (serve (identified header app) c ts ≡ serve (identified header app) d ts)
      × HasNoIdentity (serve (identified header app) c ts)
unfolding serve
identified_isolates header app c d ts same = (
  ap
      (λ id.
        serve (clearing app)
          (record { correlation_id = id; user_id = none; anonymous_id = anonymous_id_of header })
          ts)
      same,
  clearing-HasNoIdentity app _ ts,
)

-- The trace of a request depends on the context that it starts from through the correlation id
-- alone, and one that has ended leaves no user id and no anonymous id.
pub user_context_isolates :
    (scope : Scope) (app : Run) (c d : RequestContext) (ts : List Turn)
    → scope.scope_type ≢ lifespan
    → c.correlation_id ≡ d.correlation_id
    → (serve (user_context scope app) c ts ≡ serve (user_context scope app) d ts)
      × HasNoIdentity (serve (user_context scope app) c ts)
unfolding user_context serve
user_context_isolates scope app c d ts kind same = by_type scope.scope_type kind
  where
    header : Option String
    header = item scope.headers "x-anonymous-id"

    by_type :
        (t : ScopeType)
        → t ≢ lifespan
        → (serve (run_of_type t header app) c ts ≡ serve (run_of_type t header app) d ts)
          × HasNoIdentity (serve (run_of_type t header app) c ts)
    by_type lifespan other = absurd (other refl)
    by_type http other = identified_isolates header app c d ts same
    by_type websocket other = identified_isolates header app c d ts same
