-- ===== src/Middleware/Serve.antt =====
-- What a run of an application comes to, given what the server answers at each `await`.
use thryve_financial.Base.{
  Bool, true, false, Option, none, some, List, [], ◌∷◌, ◌≡◌, refl, arith, ◌≤◌, length, ap,
}
use thryve_financial.Middleware.{
  Raised, Receipt, Sent, response_start, response_body, other_message, RequestContext,
  CompletionEvent, Run, returns, raises, receives, sends, reads, writes, logs, respond,
}

-- The answer to the next `await`: a receipt, or the outcome of a send.
pub record Turn : Type 0 where
  pub receipt : Receipt
  pub send_error : Option Raised

pub data Ending : Type 0 where
  returned : Ending
  raised : Raised → Ending
  waiting : Ending

-- What was sent and logged, the context and the ending, and the answers that were not asked for.
pub record Trace : Type 0 where
  pub sent : List Sent
  pub events : List CompletionEvent
  pub context : RequestContext
  pub ending : Ending
  pub left : List Turn

abbrev pub ended : RequestContext → Ending → List Turn → Trace
ended c e ts = record { sent = []; events = []; context = c; ending = e; left = ts }

abbrev pub sending : Sent → Trace → Trace
sending m t = record t { sent = m ∷ t.sent }

abbrev pub logging : CompletionEvent → Trace → Trace
logging e t = record t { events = e ∷ t.events }

unfoldable pub serve : Run → RequestContext → List Turn → Trace
serve returns c ts = ended c returned ts
serve (raises r) c ts = ended c (raised r) ts
serve (receives k) c [] = ended c waiting []
serve (receives k) c (t ∷ ts) = serve (k t.receipt) c ts
serve (sends m k) c [] = sending m (ended c waiting [])
serve (sends m k) c (t ∷ ts) = sending m (serve (k t.send_error) c ts)
serve (reads k) c ts = serve (k c) c ts
serve (writes d k) c ts = serve k d ts
serve (logs e k) c ts = logging e (serve k c ts)

-- A response start is among the messages.
abbrev pub starts : List Sent → Bool
starts [] = false
starts (response_start code headers ∷ ms) = true
starts (response_body b more ∷ ms) = starts ms
starts (other_message s ∷ ms) = starts ms

-- The server takes the messages of the turns.
abbrev pub takes : List Turn → Bool
takes [] = true
takes (t ∷ ts) = elim t.send_error [ none ↦ takes ts | some r ↦ false ]

-- A response is sent in full to a server that takes as many messages.
pub serve-respond :
    (ms : List Sent) (c : RequestContext) (ts : List Turn)
    → length ms ≤ length ts
    → takes ts ≡ true
    → ((serve (respond ms) c ts).sent ≡ ms) × ((serve (respond ms) c ts).ending ≡ returned)
unfolding serve respond
serve-respond [] c ts enough good = (refl, refl)
serve-respond (m ∷ ms) c [] enough good = absurd (omega arith)
serve-respond (m ∷ ms) c (t ∷ ts) enough good =
    taken t.send_error good (serve-respond ms c ts (omega (arith, enough)))
  where
    taken :
        (e : Option Raised)
        → (elim e [ none ↦ takes ts | some r ↦ false ]) ≡ true
        → (takes ts ≡ true
            → ((serve (respond ms) c ts).sent ≡ ms) × ((serve (respond ms) c ts).ending ≡ returned))
        → ((sending m (serve (elim e [ none ↦ respond ms | some r ↦ raises r ]) c ts)).sent
            ≡ (m ∷ ms))
          × ((serve (elim e [ none ↦ respond ms | some r ↦ raises r ]) c ts).ending ≡ returned)
    taken none good rest = (ap (λ xs. m ∷ xs) (rest good).0, (rest good).1)
    taken (some r) good rest = ground arith
