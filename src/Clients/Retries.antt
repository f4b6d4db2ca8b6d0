-- ===== src/Clients/Retries.antt =====
-- How often a request is tried, and what it ends in.
use Prim.Native.Nat.pow
use native.Mathlib.Nat.{mul_assoc, mul_comm}
use thryve_financial.Base.{
  ℕ, zero, suc, ◌+◌, ◌*◌, ◌^◌, ◌≤◌, ◌<◌, ◌≡◌, subst, ap, ◌∙◌, sym, ◌⊎◌, refl, String, Bool, true,
  false, List, [], ◌∷◌, length, arith, ltb, ◌&&◌, if◌then◌else◌,
}
use thryve_financial.Clients.{
  BaseClient, Answer, Exchange, settled, exhausted, is_retryable, attempts, request,
}

abbrev pub total : List ℕ → ℕ
total [] = 0
total (n ∷ ns) = n + total ns

module _ (capitalize : String → String) (c : BaseClient) (answer : ℕ → Answer) where
  -- A run that starts with an attempt ends with the attempt `last`.
  abbrev EndsAt : ℕ → Exchange → ℕ → Type 0
  EndsAt attempt run last =
      (attempt + length run.waits ≡ last)
      × (last ≤ c.max_retries)
      × (run.outcome ≡ settled capitalize c (answer last))
      × ((last ≡ c.max_retries) ⊎ (is_retryable capitalize c (answer last) ≡ false))

  settle_step :
      (again : Bool) (attempt : ℕ) (later : Exchange)
      → (is_retryable capitalize c (answer attempt) && ltb attempt c.max_retries) ≡ again
      → attempt ≤ c.max_retries
      → (again ≡ true → (last : ℕ) × EndsAt (suc attempt) later last)
      → (last : ℕ) × EndsAt attempt
          (if again
            then record later { waits = c.backoff_factor * 2 ^ attempt ∷ later.waits }
            else record { outcome = settled capitalize c (answer attempt); waits = [] })
          last
  settle_step true attempt later test h rest =
      let (last, (at, bound, outcome, stopped)) = rest refl in
      (last, (omega (arith, at), bound, outcome, stopped))
  settle_step false attempt later test h rest =
      (attempt, (omega arith, h, refl, ground (arith, test, h)))

  attempts_settle :
      (left attempt : ℕ)
      → attempt + left ≡ c.max_retries
      → (last : ℕ) × EndsAt attempt (attempts capitalize c answer (suc left) attempt) last
  unfolding attempts
  attempts_settle zero attempt h =
      settle_step (is_retryable capitalize c (answer attempt) && ltb attempt c.max_retries) attempt
        (record { outcome = exhausted capitalize c; waits = [] }) refl (omega arith)
        (λ more. ground (arith, more))
  attempts_settle (suc left) attempt h =
      settle_step (is_retryable capitalize c (answer attempt) && ltb attempt c.max_retries) attempt
        (attempts capitalize c answer (suc left) (suc attempt)) refl (omega arith)
        (λ more. attempts_settle left (suc attempt) (omega arith))

  -- A request ends with the attempt after its waits, of which there are at most `max_retries`: its
  -- outcome is what that attempt ends in, and it is the last one allowed or not to be retried.
  pub request_settles :
      let run = request capitalize c answer in
      let last = length run.waits in
      (last ≤ c.max_retries)
      × (run.outcome ≡ settled capitalize c (answer last))
      × ((last ≡ c.max_retries) ⊎ (is_retryable capitalize c (answer last) ≡ false))
  unfolding request
  request_settles =
      let run = request capitalize c answer in
      let (last, (at, bound, outcome, stopped)) = attempts_settle c.max_retries 0 (omega arith) in
      subst
        (λ x.
          (x ≤ c.max_retries)
          × (run.outcome ≡ settled capitalize c (answer x))
          × ((x ≡ c.max_retries) ⊎ (is_retryable capitalize c (answer x) ≡ false)))
        (omega (arith, at)) (bound, outcome, stopped)

  attempts_retried :
      (left attempt i : ℕ)
      → i < length (attempts capitalize c answer left attempt).waits
      → is_retryable capitalize c (answer (attempt + i)) ≡ true
  unfolding attempts
  attempts_retried zero attempt i h = ground arith
  attempts_retried (suc left) attempt zero h =
      let here : attempt ≡ attempt + 0 = omega arith in
      let tried : is_retryable capitalize c (answer attempt) ≡ true = ground (arith, h) in
      subst (λ n. is_retryable capitalize c (answer n) ≡ true) here tried
  attempts_retried (suc left) attempt (suc i) h =
      let there : suc attempt + i ≡ attempt + suc i = omega arith in
      let later : i < length (attempts capitalize c answer left (suc attempt)).waits =
        ground (arith, h) in
      subst (λ n. is_retryable capitalize c (answer n) ≡ true) there
        (attempts_retried left (suc attempt) i later)

  -- Each attempt before the last got an answer that is tried again.
  pub request_retried :
      (i : ℕ)
      → i < length (request capitalize c answer).waits
      → is_retryable capitalize c (answer i) ≡ true
  unfolding request
  request_retried i h =
      let here : 0 + i ≡ i = omega arith in
      subst (λ n. is_retryable capitalize c (answer n) ≡ true) here
        (attempts_retried (suc c.max_retries) 0 i h)

  backoff_step :
      (again : Bool) (attempt : ℕ) (later : Exchange)
      → total later.waits + c.backoff_factor * 2 ^ suc attempt
        ≡ c.backoff_factor * 2 ^ suc attempt * 2 ^ length later.waits
      → let waits =
          (if again
            then record later { waits = c.backoff_factor * 2 ^ attempt ∷ later.waits }
            else record { outcome = settled capitalize c (answer attempt); waits = [] }).waits in
        total waits + c.backoff_factor * 2 ^ attempt
        ≡ c.backoff_factor * 2 ^ attempt * 2 ^ length waits
  backoff_step true attempt later h =
      let wait = c.backoff_factor * 2 ^ attempt in
      let next : c.backoff_factor * 2 ^ suc attempt ≡ wait * 2 =
        ap (λ p. c.backoff_factor * p) (pow.suc 2 attempt)
        ∙ sym (mul_assoc c.backoff_factor (2 ^ attempt) 2) in
      let power : wait * 2 ^ suc (length later.waits) ≡ wait * (2 ^ length later.waits * 2) =
        ap (λ p. wait * p) (pow.suc 2 (length later.waits)) in
      let turned : wait * (2 ^ length later.waits * 2) ≡ wait * 2 * 2 ^ length later.waits =
        ap (λ p. wait * p) (mul_comm (2 ^ length later.waits) 2)
        ∙ sym (mul_assoc wait 2 (2 ^ length later.waits)) in
      let doubled = subst (λ n. total later.waits + n ≡ n * 2 ^ length later.waits) next h in
      omega (arith, doubled, power, turned)
  backoff_step false attempt later h = omega arith

  attempts_backoff :
      (left attempt : ℕ)
      → let waits = (attempts capitalize c answer left attempt).waits in
        total waits + c.backoff_factor * 2 ^ attempt
        ≡ c.backoff_factor * 2 ^ attempt * 2 ^ length waits
  unfolding attempts
  attempts_backoff zero attempt = omega arith
  attempts_backoff (suc left) attempt =
      backoff_step (is_retryable capitalize c (answer attempt) && ltb attempt c.max_retries) attempt
        (attempts capitalize c answer left (suc attempt)) (attempts_backoff left (suc attempt))

  -- The waits double, from the backoff factor on: their sum and the factor make the factor times
  -- two to the number of the waits.
  pub request_backoff :
      let waits = (request capitalize c answer).waits in
      total waits + c.backoff_factor ≡ c.backoff_factor * 2 ^ length waits
  unfolding request
  request_backoff =
      let waits = (request capitalize c answer).waits in
      let one : c.backoff_factor * 2 ^ 0 ≡ c.backoff_factor = omega arith in
      subst (λ n. total waits + n ≡ n * 2 ^ length waits) one
        (attempts_backoff (suc c.max_retries) 0)
