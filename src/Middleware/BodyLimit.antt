-- ===== src/Middleware/BodyLimit.antt =====
-- The limit of a request's body.
use thryve_financial.Base.{
  ℕ, ◌+◌, ◌-◌, ◌≤◌, ◌≡◌, refl, ap, true, Option, List, length, arith, if◌then◌else◌, ltb, ◌⊎◌, inl,
  inr,
}
use mathlib.Core.Path.{fun_ext}
use thryve_financial.Problem.{Problem}
use thryve_financial.Middleware.{
  Raised, too_large, Receipt, message, failed, http_request, http_disconnect, Sent, RequestContext,
  Run, returns, raises, receives, sends, reads, writes, logs, CompletionEvent, Scope, is_http,
  limited,
}
use thryve_financial.Middleware.Stack.{last_item, announces_more, body_size_limit}

-- The bytes of the body that an application gets.
abbrev pub body_bytes : Receipt → ℕ
body_bytes (failed e) = 0
body_bytes (message http_disconnect) = 0
body_bytes (message (http_request body more)) = length body

-- Two applications that do the same as long as they have got no more than `n` bytes of the body.
pub data Agree : ℕ → Run → Run → Type 0 where
  both_return : {n : ℕ} → Agree n returns returns
  both_raise : {n : ℕ} (r : Raised) → Agree n (raises r) (raises r)
  both_receive :
      {n : ℕ} {k l : Receipt → Run}
      → ((r : Receipt) → body_bytes r ≤ n → Agree (n - body_bytes r) (k r) (l r))
      → Agree n (receives k) (receives l)
  both_send :
      {n : ℕ} {k l : Option Raised → Run} (m : Sent)
      → ((e : Option Raised) → Agree n (k e) (l e))
      → Agree n (sends m k) (sends m l)
  both_read :
      {n : ℕ} {k l : RequestContext → Run}
      → ((c : RequestContext) → Agree n (k c) (l c))
      → Agree n (reads k) (reads l)
  both_write :
      {n : ℕ} {k l : Run} (c : RequestContext) → Agree n k l → Agree n (writes c k) (writes c l)
  both_log : {n : ℕ} {k l : Run} (e : CompletionEvent) → Agree n k l → Agree n (logs e k) (logs e l)

module _ (max_size : ℕ) (refusal : Problem) (answer : List Sent) where
  -- What `limited` goes on with after a receipt.
  abbrev delivered : ℕ → (Receipt → Run) → Receipt → Run
  delivered total k (failed e) = limited max_size refusal answer total (k (failed e))
  delivered total k (message http_disconnect) =
      limited max_size refusal answer total (k (message http_disconnect))
  delivered total k (message (http_request body more)) =
      if ltb max_size (total + length body)
      then limited max_size refusal answer (total + length body) (k (failed (too_large refusal)))
      else limited max_size refusal answer (total + length body)
          (k (message (http_request body more)))

  limited-Agree :
      {n : ℕ} {a b : Run} (total : ℕ)
      → max_size ≤ n + total
      → Agree n a b
      → limited max_size refusal answer total a ≡ limited max_size refusal answer total b
  unfolding limited
  limited-Agree total room both_return = refl
  limited-Agree total room (both_raise r) = refl
  limited-Agree total room (both_receive {n} {k} {l} h) =
      ap receives (fun_ext λ r. got (λ next r small fits. limited-Agree next fits (h r small)) r)
    where
      got :
          ((next : ℕ) (r : Receipt)
            → body_bytes r ≤ n
            → max_size ≤ (n - body_bytes r) + next
            → limited max_size refusal answer next (k r)
              ≡ limited max_size refusal answer next (l r))
          → (r : Receipt) → delivered total k r ≡ delivered total l r
      got same (failed e) = same total (failed e) (omega arith) (omega (arith, room))
      got same (message http_disconnect) =
          same total (message http_disconnect) (omega arith) (omega (arith, room))
      got same (message (http_request body more)) = ground (
        arith,
        same (total + length body) (failed (too_large refusal)) (omega arith) (omega (arith, room)),
        same (total + length body) (message (http_request body more)),
      )
  limited-Agree total room (both_send m h) =
      ap (sends m) (fun_ext λ e. limited-Agree total room (h e))
  limited-Agree total room (both_read h) = ap reads (fun_ext λ c. limited-Agree total room (h c))
  limited-Agree total room (both_write c h) = ap (writes c) (limited-Agree total room h)
  limited-Agree total room (both_log e h) = ap (logs e) (limited-Agree total room h)

-- Two applications that do the same as long as they have got no more than the limit are the same
-- behind the middleware: no application gets more than that; and one that is announced a longer body
-- is not run at all.
pub body_limit_hides :
    (max_size : ℕ) (refusal : Problem) (answer : List Sent) (scope : Scope) (a b : Run)
    → is_http scope ≡ true
    → Agree max_size a b
      ⊎ (announces_more max_size (last_item "content-length" scope.headers) ≡ true)
    → body_size_limit max_size refusal answer scope a
      ≡ body_size_limit max_size refusal answer scope b
unfolding body_size_limit
body_limit_hides max_size refusal answer scope a b http (inl agree) =
    ground (arith, limited-Agree max_size refusal answer 0 (omega arith) agree)
body_limit_hides max_size refusal answer scope a b http (inr more) = ground arith
