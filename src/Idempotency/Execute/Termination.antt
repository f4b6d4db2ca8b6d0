-- ===== src/Idempotency/Execute/Termination.antt =====
-- The loop of `execute` ends: a round goes round again only when the record that it was to replay
-- is gone or has expired meanwhile.
use thryve_financial.Base.{
  Dict, ℕ, ◌+◌, ◌≡◌, ◌≢◌, refl, sym, ap, subst, String, true, none, some, List, ◌∷◌, arith,
}
use thryve_financial.Idempotency.Types.{
  IdempotencyPolicy, IdempotencyRequest, ResolvedIdempotencyRequest, IdempotentOperationResult,
  Response, scope_value, is_completed, IdempotencyStorageSource, Claim, claimed_request,
  replay_target, in_progress_target, seconds,
}
use thryve_financial.Idempotency.Table.{Table, IsDistinct, find, get, delete}
use thryve_financial.Idempotency.Table.Laws.{find-delete_self, get-find, get-delete-none}
use thryve_financial.Idempotency.Turn.{Turn, IsQuiet, Pass, returned, raised, again, go_round}
use thryve_financial.Idempotency.Claim.{claim_pass, claim_loop, claim_request}
use thryve_financial.Idempotency.Claim.Termination.{
  claim_pass-absent, claim_pass-again, claim_pass-replay,
}
use thryve_financial.Idempotency.Execute.{
  Serializer, Store, Called, Round, commit_result, run_claimed, release_raised,
  execute_claimed_operation, replay_record, after_claim, execute_round, execute,
}
use thryve_financial.Idempotency.Execute.Once.{IsAlone}

module _ {A : Type 0} (resolved : ResolvedIdempotencyRequest) where
  run_claimed_ends :
      (i : ℕ) (owner : String) (operation : A → Called A IdempotentOperationResult) (turn : Turn)
      (s : Store A)
      → (run_claimed resolved i owner operation turn s).0 ≢ again
  unfolding run_claimed commit_result
  run_claimed_ends i owner operation turn s h = ground arith

  -- A claimed run never goes round again.
  execute_claimed_operation_ends :
      (i : ℕ) (owner : String) (operation : A → Called A IdempotentOperationResult)
      (turn after : Turn) (s : Store A)
      → (execute_claimed_operation resolved i owner operation turn after s).0 ≢ again
  unfolding execute_claimed_operation
  execute_claimed_operation_ends i owner operation turn after s =
      released (run_claimed resolved i owner operation turn s)
        (run_claimed_ends i owner operation turn s)
    where
      released :
          (p : Pass Response × Store A) → p.0 ≢ again → (release_raised i owner after p).0 ≢ again
      released (returned r, u) h = h
      released (raised e, u) h = λ x. cc
      released (again, u) h = h

  -- A replay that goes round again met a record that has just been deleted.
  replay_record-again :
      (i : ℕ) (serializers : Dict (Serializer A)) (turn : Turn) (s : Store A)
      (r : IdempotencyRequest)
      → IsAlone turn
      → get i s.requests ≡ some r
      → is_completed r ≡ true
      → (replay_record resolved i serializers turn s).0 ≡ again
      → (replay_record resolved i serializers turn s).1.requests ≡ delete i s.requests
  unfolding replay_record
  replay_record-again i serializers turn s r alone found complete h =
      ground (arith, alone.0, alone.1 s.requests)

module _ {A : Type 0} (resolved : ResolvedIdempotencyRequest) (policy : IdempotencyPolicy)
    (serializers : Dict (Serializer A)) (operation : A → Called A IdempotentOperationResult) where
  -- A round over a table without the key claims it and ends the loop.
  execute_round-absent :
      (round : Round) (c : Turn) (cs : List Turn) (s : Store A)
      → round.claims ≡ c ∷ cs
      → IsQuiet c s.requests
      → find (scope_value resolved.scope) resolved.key s.requests ≡ none
      → (execute_round resolved policy serializers operation round s).0 ≢ again
  unfolding execute_round claim_request claim_loop
  execute_round-absent round c cs s claims quiet free =
      rw (claims, claim_pass-absent resolved policy round.owner _ c s.requests quiet free)
        (execute_claimed_operation_ends resolved c.fresh_id round.owner operation round.next
          round.after _)

  -- The two quiet rounds that end the loop. What the first one leaves when it goes round again is a
  -- table without the key.
  module _ (one two : Round) (c d e : Turn) (cs ds : List Turn) (rounds : List Round) (t : Table)
      (app : A) (claims : one.claims ≡ c ∷ d ∷ cs) (claims' : two.claims ≡ e ∷ ds)
      (quiet_c : IsQuiet c t) (quiet_d : IsQuiet d t) (quiet_e : IsQuiet e t)
      (alone : IsAlone one.next) (distinct : IsDistinct t) where
    abbrev until : ℕ
    until = one.started + seconds policy.processing_lease_seconds

    -- A round that goes round again leaves a table without the key, and with no more ids.
    abbrev Freed : Pass Response × Store A → Type 0
    Freed p =
        p.0 ≡ again
        → (find (scope_value resolved.scope) resolved.key p.1.requests ≡ none)
          × (get e.fresh_id p.1.requests ≡ none)

    replay-Freed :
        (i : ℕ) (source : IdempotencyStorageSource) (u : Table)
        → claim_pass resolved policy one.owner until c t ≡ (returned (replay_target i source), u)
        → Freed (replay_record resolved i serializers one.next (record { requests = u; app = app }))
    replay-Freed i source u h more =
        let (r, found, this, complete, same) =
          claim_pass-replay resolved policy one.owner until c t u i source quiet_c h in
        let here : get i u ≡ some r =
          rw (same, ← this)
            (get-find (scope_value resolved.scope) resolved.key t r distinct found) in
        let s : Store A = record { requests = u; app = app } in
        let left : (replay_record resolved i serializers one.next s).1.requests ≡ delete r.id t =
          rw
            (replay_record-again resolved i serializers one.next s r alone here complete more, same)
            (ap (λ k. delete k t) (sym this)) in
        rw left (
          find-delete_self (scope_value resolved.scope) resolved.key t r distinct found,
          get-delete-none e.fresh_id r.id t quiet_e.new_id,
        )

    first_round :
        (p : Pass Claim × Table)
        → claim_pass resolved policy one.owner until c t ≡ p
        → Freed (
            let (q, u) = go_round p (claim_loop resolved policy one.owner until (d ∷ cs)) in
            after_claim resolved policy serializers operation q one
              (record { requests = u; app = app }))
    unfolding claim_loop after_claim
    first_round (raised f, u) h more = absurd cc
    first_round (returned (claimed_request i owner stolen), u) h more =
        absurd (execute_claimed_operation_ends resolved i owner operation one.next one.after _ more)
    first_round (returned (in_progress_target wait), u) h more = absurd cc
    first_round (returned (replay_target i source), u) h more = replay-Freed i source u h more
    first_round (again, u) h more =
        let (free, ids) =
          claim_pass-again resolved policy one.owner until c t u quiet_c distinct h in
        let quiet : IsQuiet d u = record {
          answers = quiet_d.answers;
          alone = quiet_d.alone;
          new_id = ids d.fresh_id quiet_d.new_id;
        } in
        let claimed = claim_pass-absent resolved policy one.owner until d u quiet free in
        absurd (
          execute_claimed_operation_ends resolved d.fresh_id one.owner operation one.next one.after
            _ (rw claimed at more))

    second_round :
        (p : Pass Response × Store A)
        → Freed p
        → (go_round p (execute resolved policy serializers operation (two ∷ rounds))).0 ≢ again
    unfolding execute
    second_round (returned r, s) freed = λ h. cc
    second_round (raised f, s) freed = λ h. cc
    second_round (again, s) freed =
        let (free, new) = freed refl in
        let quiet : IsQuiet e s.requests = record {
          answers = quiet_e.answers;
          alone = quiet_e.alone;
          new_id = new;
        } in
        ended (execute_round resolved policy serializers operation two s)
          (execute_round-absent two e ds s claims' quiet free)
      where
        ended :
            (q : Pass Response × Store A)
            → q.0 ≢ again
            → (go_round q (execute resolved policy serializers operation rounds)).0 ≢ again
        ended (returned r, v) h = h
        ended (raised f, v) h = h
        ended (again, v) h = absurd (h refl)

    -- Two rounds that nobody disturbs end the loop: it returns a response or raises.
    pub execute_ends :
        (execute resolved policy serializers operation
          (one ∷ two ∷ rounds)
          (record { requests = t; app = app })).0
        ≢ again
    unfolding execute execute_round claim_request claim_loop
    execute_ends =
        second_round
          (execute_round resolved policy serializers operation one
            (record { requests = t; app = app }))
          (subst
            (λ (p : Pass Claim × Table). Freed (
              after_claim resolved policy serializers operation p.0 one
                (record { requests = p.1; app = app })))
            (ap (λ turns. claim_loop resolved policy one.owner until turns t) (sym claims))
            (first_round (claim_pass resolved policy one.owner until c t) refl))
