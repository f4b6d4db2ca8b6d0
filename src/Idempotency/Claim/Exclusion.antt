-- ===== src/Idempotency/Claim/Exclusion.antt =====
-- Who holds a key after a claim, and what a second request for the key is told meanwhile.
use thryve_financial.Base.{
  ℕ, ◌+◌, ◌-◌, ◌/◌, ◌<◌, ◌≡◌, ◌≢◌, ◌⊎◌, refl, sym, ◌∙◌, String, Bool, true, some, arith,
  Option-cases, inl, inr, eq_iff, eq_refl, max,
}
use thryve_financial.Idempotency.Types.{
  IdempotencyPolicy, IdempotencyRequest, ResolvedIdempotencyRequest, scope_value, claimed_request,
  in_progress_target, processing, payload_mismatch, seconds,
}
use thryve_financial.Idempotency.Table.{Table, IsDistinct, find, get, add, set_row}
use thryve_financial.Idempotency.Table.Laws.{
  find-add_self, get-find, find-set_row, get-set_row, update_found,
}
use thryve_financial.Idempotency.Turn.{Turn, returned, raised}
use thryve_financial.Idempotency.Claim.{
  new_record, reclaimed, insert_claim, steal_lease, claim_known, claim_pass, retry_after,
}

-- The row of a key that `owner` has claimed.
pub record IsHeld (resolved : ResolvedIdempotencyRequest) (owner : String) (lease_end expiry : ℕ)
    (i : ℕ) (u : Table) : Type 0 where
  pub row : IdempotencyRequest
  pub found : find (scope_value resolved.scope) resolved.key u ≡ some row
  pub by_id : get i u ≡ some row
  pub open_row : row.status ≡ processing
  pub held_by : row.lease_owner ≡ some owner
  pub held_until : row.lease_expires_at ≡ some lease_end
  pub same_hash : row.fingerprint_hash ≡ resolved.fingerprint_hash
  pub same_version : row.fingerprint_version ≡ resolved.fingerprint_version
  pub kept_until : row.expires_at ≡ expiry
  pub its_id : row.id ≡ i

module _ (resolved : ResolvedIdempotencyRequest) (policy : IdempotencyPolicy) (owner : String)
    (lease_end : ℕ) where
  abbrev Holds : ℕ → Turn → Table → Type 0
  Holds i turn u = IsHeld resolved owner lease_end (turn.now + seconds policy.retention_seconds) i u

  insert_claim-Holds :
      (turn : Turn) (t u : Table) (i : ℕ) (stolen : Bool)
      → insert_claim resolved policy owner lease_end turn t
        ≡ (returned (claimed_request i owner stolen), u)
      → Holds i turn u
  unfolding insert_claim
  insert_claim-Holds turn t u i stolen h =
      let row = new_record resolved policy owner lease_end turn in
      let added : add row (turn.others t) ≡ some u = ground arith in
      let fresh : turn.fresh_id ≡ i = ground arith in
      record {
        row = row;
        found = find-add_self _ _ row (turn.others t) u added (simp eq_refl);
        by_id = unfold add get in ground arith;
        open_row = refl;
        held_by = refl;
        held_until = refl;
        same_hash = refl;
        same_version = refl;
        kept_until = refl;
        its_id = fresh;
      }

  steal_lease-Holds :
      (turn : Turn) (t u : Table) (r : IdempotencyRequest) (i : ℕ) (stolen : Bool)
      → turn.others t ≡ t
      → IsDistinct t
      → find (scope_value resolved.scope) resolved.key t ≡ some r
      → r.fingerprint_hash ≡ resolved.fingerprint_hash
      → r.fingerprint_version ≡ resolved.fingerprint_version
      → steal_lease resolved policy owner lease_end turn r t
        ≡ (returned (claimed_request i owner stolen), u)
      → Holds i turn u
  unfolding steal_lease
  steal_lease-Holds turn t u r i stolen quiet d f same_hash same_version h =
      let change = reclaimed resolved policy owner lease_end turn.now in
      let here : get r.id t ≡ some r = get-find _ _ t r d f in
      let write = update_found r.id change t r here in
      let rows : set_row r.id change t ≡ u = ground arith in
      let this : r.id ≡ i = ground arith in
      record {
        row = change r;
        found = ground (
          arith,
          find-set_row (scope_value resolved.scope) resolved.key r.id change t (λ x. refl),
        );
        by_id = ground (arith, get-set_row r.id change t (λ x. refl));
        open_row = refl;
        held_by = refl;
        held_until = refl;
        same_hash = same_hash;
        same_version = same_version;
        kept_until = refl;
        its_id = this;
      }

  claim_known-Holds :
      (turn : Turn) (t u : Table) (r : IdempotencyRequest) (i : ℕ) (stolen : Bool)
      → turn.others t ≡ t
      → IsDistinct t
      → find (scope_value resolved.scope) resolved.key t ≡ some r
      → claim_known resolved policy owner lease_end turn r t
        ≡ (returned (claimed_request i owner stolen), u)
      → Holds i turn u
  unfolding claim_known
  claim_known-Holds turn t u r i stolen quiet d f h =
      steal_lease-Holds turn t u r i stolen quiet d f
        (ground (arith, eq_iff r.fingerprint_hash resolved.fingerprint_hash)) (ground arith)
        (ground arith)

  -- A claim that nobody disturbed leaves the key's row leased to its owner.
  pub claim_pass-Holds :
      (turn : Turn) (t u : Table) (i : ℕ) (stolen : Bool)
      → turn.others t ≡ t
      → IsDistinct t
      → claim_pass resolved policy owner lease_end turn t
        ≡ (returned (claimed_request i owner stolen), u)
      → Holds i turn u
  unfolding claim_pass
  claim_pass-Holds turn t u i stolen quiet d h =
      elim (Option-cases (find (scope_value resolved.scope) resolved.key t)) [
        | inl e ↦ insert_claim-Holds turn t u i stolen (ground arith)
        | inr (r, e) ↦ claim_known-Holds turn t u r i stolen quiet d e (ground arith)
      ]

-- What a claim of a key is told of the key's row, by the row.
module _ (resolved : ResolvedIdempotencyRequest) (policy : IdempotencyPolicy) (owner : String)
    (lease_end : ℕ) (turn : Turn) (r : IdempotencyRequest) (t : Table) where
  wait_for :
      (until : ℕ)
      → r.status ≡ processing
      → r.lease_expires_at ≡ some until
      → r.fingerprint_hash ≡ resolved.fingerprint_hash
      → r.fingerprint_version ≡ resolved.fingerprint_version
      → turn.now < r.expires_at
      → turn.now < until
      → claim_known resolved policy owner lease_end turn r t
        ≡ (returned (in_progress_target (max 1 ((until - turn.now) / 1000000))), turn.others t)
  unfolding claim_known retry_after
  wait_for until open_row leased hash version kept live =
      ground (arith, eq_iff r.fingerprint_hash resolved.fingerprint_hash)

  mismatch_refused :
      (r.fingerprint_hash ≢ resolved.fingerprint_hash)
        ⊎ (r.fingerprint_version ≢ resolved.fingerprint_version)
      → turn.now < r.expires_at
      → claim_known resolved policy owner lease_end turn r t
        ≡ (raised payload_mismatch, turn.others t)
  unfolding claim_known
  mismatch_refused (inl differ) kept =
      ground (arith, eq_iff r.fingerprint_hash resolved.fingerprint_hash)
  mismatch_refused (inr differ) kept = ground arith

module _ (resolved rival : ResolvedIdempotencyRequest) (policy policy' : IdempotencyPolicy)
    (owner owner' : String) (lease_end lease_end' : ℕ) (turn turn' : Turn) (t u : Table) (i : ℕ)
    (stolen : Bool) where
  -- The same scope and key.
  abbrev pub SameKey : Type 0
  SameKey = (scope_value rival.scope ≡ scope_value resolved.scope) × (rival.key ≡ resolved.key)

  -- While a claim's lease and its record last, a second request with the key and the fingerprint
  -- is told to wait, and writes nothing.
  pub claim_excludes :
      turn.others t ≡ t
      → IsDistinct t
      → claim_pass resolved policy owner lease_end turn t
        ≡ (returned (claimed_request i owner stolen), u)
      → SameKey
      → rival.fingerprint_hash ≡ resolved.fingerprint_hash
      → rival.fingerprint_version ≡ resolved.fingerprint_version
      → turn'.up ≡ true
      → turn'.now < lease_end
      → turn'.now < turn.now + seconds policy.retention_seconds
      → claim_pass rival policy' owner' lease_end' turn' u ≡ (
        returned (in_progress_target (max 1 ((lease_end - turn'.now) / 1000000))),
        turn'.others u,
      )
  unfolding claim_pass
  claim_excludes quiet d claimed same hash version up live kept =
      let held =
        claim_pass-Holds resolved policy owner lease_end turn t u i stolen quiet d claimed in
      let seen : find (scope_value rival.scope) rival.key u ≡ some held.row =
        rw (same.0, same.1) held.found in
      rw (up, seen)
        (wait_for rival policy' owner' lease_end' turn' held.row u lease_end held.open_row
          held.held_until (held.same_hash ∙ sym hash) (held.same_version ∙ sym version)
          (rw held.kept_until kept) live)

  -- A second request with the key and another fingerprint is refused for as long as the record
  -- lasts, and writes nothing.
  pub claim_refuses_mismatch :
      turn.others t ≡ t
      → IsDistinct t
      → claim_pass resolved policy owner lease_end turn t
        ≡ (returned (claimed_request i owner stolen), u)
      → SameKey
      → (resolved.fingerprint_hash ≢ rival.fingerprint_hash)
        ⊎ (resolved.fingerprint_version ≢ rival.fingerprint_version)
      → turn'.up ≡ true
      → turn'.now < turn.now + seconds policy.retention_seconds
      → claim_pass rival policy' owner' lease_end' turn' u
        ≡ (raised payload_mismatch, turn'.others u)
  unfolding claim_pass
  claim_refuses_mismatch quiet d claimed same differ up kept =
      let held =
        claim_pass-Holds resolved policy owner lease_end turn t u i stolen quiet d claimed in
      let seen : find (scope_value rival.scope) rival.key u ≡ some held.row =
        rw (same.0, same.1) held.found in
      rw (up, seen)
        (mismatch_refused rival policy' owner' lease_end' turn' held.row u
          (rw (held.same_hash, held.same_version) differ) (rw held.kept_until kept))
