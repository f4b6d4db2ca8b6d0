-- ===== src/Middleware/Deadline.antt =====
-- What the deadline of a request makes of it.
use thryve_financial.Base.{
  ℕ, ◌≤◌, ◌≡◌, refl, ap, ◌∙◌, Bool, true, false, ◌||◌, List, [], ◌∷◌, ◌++◌, length, arith,
  if◌then◌else◌,
}
use thryve_financial.Middleware.{
  too_large, problem, timeout_error, deadline_cancelled, cancelled, other_exception, Sent,
  RawHeaders, CompletionEvent, response_start, response_body, other_message, RequestContext, Run,
  returns, raises, receives, sends, reads, writes, logs, timed, respond,
}
use thryve_financial.Middleware.Serve.{
  Turn, Trace, Ending, returned, raised, waiting, sending, logging, serve, starts, takes,
  serve-respond,
}

-- One trace after another.
abbrev pub followed : Trace → Trace → Trace
followed t u = record u { sent = t.sent ++ u.sent; events = t.events ++ u.events }

abbrev pub is_overdue : Ending → Bool
is_overdue returned = false
is_overdue waiting = false
is_overdue (raised timeout_error) = true
is_overdue (raised deadline_cancelled) = true
is_overdue (raised cancelled) = false
is_overdue (raised (too_large p)) = false
is_overdue (raised (problem p)) = false
is_overdue (raised (other_exception s)) = false

-- The trace of a request, from that of the application: one that is overdue is answered, or raises
-- once its response has started.
abbrev pub resolved : List Sent → Bool → Trace → Trace
resolved answer started t =
    if is_overdue t.ending
    then if started || starts t.sent
      then record t { ending = raised timeout_error }
      else followed t (serve (respond answer) t.context t.left)
    else t

sending-resolved :
    (answer : List Sent) (started : Bool) (m : Sent) (t : Trace)
    → starts (m ∷ t.sent) ≡ starts t.sent
    → sending m (resolved answer started t) ≡ resolved answer started (sending m t)
sending-resolved answer started m t same = ground arith

sending-resolved_start :
    (answer : List Sent) (started : Bool) (code : ℕ) (headers : RawHeaders) (t : Trace)
    → sending (response_start code headers) (resolved answer true t)
      ≡ resolved answer started (sending (response_start code headers) t)
sending-resolved_start answer started code headers t = ground arith

logging-resolved :
    (answer : List Sent) (started : Bool) (e : CompletionEvent) (t : Trace)
    → logging e (resolved answer started t) ≡ resolved answer started (logging e t)
logging-resolved answer started e t = ground arith

pub serve-timed :
    (answer : List Sent) (started : Bool) (app : Run) (c : RequestContext) (ts : List Turn)
    → serve (timed answer started app) c ts ≡ resolved answer started (serve app c ts)
unfolding serve timed
serve-timed answer started returns c ts = refl
serve-timed answer true (raises timeout_error) c ts = refl
serve-timed answer false (raises timeout_error) c ts = refl
serve-timed answer true (raises deadline_cancelled) c ts = refl
serve-timed answer false (raises deadline_cancelled) c ts = refl
serve-timed answer started (raises cancelled) c ts = refl
serve-timed answer started (raises (too_large p)) c ts = refl
serve-timed answer started (raises (problem p)) c ts = refl
serve-timed answer started (raises (other_exception s)) c ts = refl
serve-timed answer started (receives k) c [] = refl
serve-timed answer started (receives k) c (t ∷ ts) = serve-timed answer started (k t.receipt) c ts
serve-timed answer started (sends (response_start code headers) k) c [] = refl
serve-timed answer started (sends (response_start code headers) k) c (t ∷ ts) =
    ap (sending (response_start code headers)) (serve-timed answer true (k t.send_error) c ts)
    ∙ sending-resolved_start answer started code headers (serve (k t.send_error) c ts)
serve-timed answer started (sends (response_body b more) k) c [] = refl
serve-timed answer started (sends (response_body b more) k) c (t ∷ ts) =
    ap (sending (response_body b more)) (serve-timed answer started (k t.send_error) c ts)
    ∙ sending-resolved answer started (response_body b more) (serve (k t.send_error) c ts) refl
serve-timed answer started (sends (other_message s) k) c [] = refl
serve-timed answer started (sends (other_message s) k) c (t ∷ ts) =
    ap (sending (other_message s)) (serve-timed answer started (k t.send_error) c ts)
    ∙ sending-resolved answer started (other_message s) (serve (k t.send_error) c ts) refl
serve-timed answer started (reads k) c ts = serve-timed answer started (k c) c ts
serve-timed answer started (writes d k) c ts = serve-timed answer started k d ts
serve-timed answer started (logs e k) c ts =
    ap (logging e) (serve-timed answer started k c ts)
    ∙ logging-resolved answer started e (serve k c ts)

-- A request that is overdue before its response has started is answered, if the server takes as
-- many messages as the answer has: after what the application sent, the answer is sent in full, and
-- the middleware returns.
pub overdue_answered :
    (answer : List Sent) (app : Run) (c : RequestContext) (ts : List Turn)
    → is_overdue (serve app c ts).ending ≡ true
    → starts (serve app c ts).sent ≡ false
    → length answer ≤ length (serve app c ts).left
    → takes (serve app c ts).left ≡ true
    → ((serve (timed answer false app) c ts).sent ≡ ((serve app c ts).sent ++ answer))
      × ((serve (timed answer false app) c ts).ending ≡ returned)
overdue_answered answer app c ts overdue fresh enough good = ground (
  arith,
  serve-timed answer false app c ts,
  serve-respond answer (serve app c ts).context (serve app c ts).left enough good,
)
