-- ===== src/Idempotency/Cleanup/Laws.antt =====
-- What a cleanup deletes, and what it leaves.
use thryve_financial.Base.{
  ℕ, zero, suc, ◌<◌, ◌≡◌, refl, sym, subst, ap, String, Bool, true, false, Option, some, [], ◌∷◌,
  arith, ◌&&◌, ◌||◌, ◌⊎◌, length, take, length-take, select, All, Bool-cases, inl, inr,
}
use native.Mathlib.Decide.{dec_lt}
use thryve_financial.Idempotency.Types.{IdempotencyRequest}
use thryve_financial.Idempotency.Table.{
  Table, IsDistinct, IsValid, find, delete, has_id, has_key, clash,
}
use thryve_financial.Idempotency.Table.Laws.{All-select, first-All}
use thryve_financial.Idempotency.Table.Validity.{delete-IsValid}
use thryve_financial.Idempotency.Turn.{Turn}
use thryve_financial.Idempotency.Cleanup.{
  effective_batch, insert_by_expiry, order_by_expiry, is_expired, expired_batch, delete_all,
  cleanup_expired_idempotency_requests,
}

insert_by_expiry-All :
    (P : IdempotencyRequest → Type 0) (r : IdempotencyRequest) (t : Table)
    → P r
    → All P t
    → All P (insert_by_expiry r t)
unfolding insert_by_expiry
insert_by_expiry-All P r [] p h = (p, tt)
insert_by_expiry-All P r (x ∷ t) p h = ground (arith, insert_by_expiry-All P r t p h.1)

order_by_expiry-All :
    (P : IdempotencyRequest → Type 0) (t : Table) → All P t → All P (order_by_expiry t)
unfolding order_by_expiry
order_by_expiry-All P [] h = tt
order_by_expiry-All P (x ∷ t) h =
    insert_by_expiry-All P x (order_by_expiry t) h.0 (order_by_expiry-All P t h.1)

take-All : (P : IdempotencyRequest → Type 0) (n : ℕ) (t : Table) → All P t → All P (take n t)
take-All P zero t h = tt
take-All P (suc n) [] h = tt
take-All P (suc n) (x ∷ t) h = (h.0, take-All P n t h.1)

select_holds : (p : IdempotencyRequest → Bool) (t : Table) → All (λ r. p r ≡ true) (select p t)
select_holds p [] = tt
select_holds p (x ∷ t) = ground (arith, select_holds p t)

delete_all-IsValid : (rs t : Table) → IsValid t → IsValid (delete_all rs t)
unfolding delete_all
delete_all-IsValid [] t v = v
delete_all-IsValid (r ∷ rs) t v = delete_all-IsValid rs (delete r.id t) (delete-IsValid r.id t v)

-- Ids of the batch are those of expired rows of the table.
expired_batch-All :
    (now batch : ℕ) (t : Table) → All (λ r. is_expired now r ≡ true) (expired_batch now batch t)
unfolding expired_batch
expired_batch-All now batch t =
    take-All _ batch _ (order_by_expiry-All _ _ (select_holds (is_expired now) t))

find-delete_ne :
    (s k : String) (i : ℕ) (t : Table) (r : IdempotencyRequest)
    → find s k t ≡ some r
    → has_id i r ≡ false
    → find s k (delete i t) ≡ some r
unfolding find delete
find-delete_ne s k i [] r h e = h
find-delete_ne s k i (x ∷ t) r h e = ground (arith, find-delete_ne s k i t r)

find-delete_all :
    (s k : String) (rs t : Table) (r : IdempotencyRequest)
    → All (λ x. has_id x.id r ≡ false) rs
    → find s k t ≡ some r
    → find s k (delete_all rs t) ≡ some r
unfolding delete_all
find-delete_all s k [] t r h e = e
find-delete_all s k (x ∷ rs) t r h e =
    find-delete_all s k rs (delete x.id t) r h.1 (find-delete_ne s k x.id t r e h.0)

-- Expired rows that clash with no row of an unexpired id.
abbrev Apart : ℕ → IdempotencyRequest → IdempotencyRequest → Type 0
Apart now r x = (is_expired now x && has_id x.id r) ≡ false

Apart-beyond :
    (now : ℕ) (r : IdempotencyRequest) (t : Table)
    → All (λ x. clash r x ≡ false) t
    → All (Apart now r) t
Apart-beyond now r [] h = tt
Apart-beyond now r (x ∷ t) h = ground (arith, Apart-beyond now r t h.1)

Apart-rows :
    (now : ℕ) (s k : String) (t : Table) (r : IdempotencyRequest)
    → IsDistinct t
    → find s k t ≡ some r
    → now < r.expires_at
    → All (Apart now r) t
unfolding find
Apart-rows now s k [] r d h kept = tt
Apart-rows now s k (x ∷ t) r d h kept = elim (Bool-cases (has_key s k x)) [
  | inl hit ↦
      let here : x ≡ r = ground arith in
      (ground arith, subst (λ y. All (Apart now y) t) here (Apart-beyond now x t d.0))
  | inr miss ↦
      let there : find s k t ≡ some r = ground arith in
      (
        ground (arith, first-All (λ y. clash x y ≡ false) (has_key s k) t r d.0),
        Apart-rows now s k t r d.1 there kept,
      )
]

ids_differ :
    (now : ℕ) (r : IdempotencyRequest) (t : Table)
    → All (λ x. is_expired now x ≡ true) t
    → All (Apart now r) t
    → All (λ x. has_id x.id r ≡ false) t
ids_differ now r [] h a = tt
ids_differ now r (x ∷ t) h a = ground (arith, ids_differ now r t h.1 a.1)

-- A record that has not expired survives a cleanup.
pub cleanup_keeps_unexpired :
    (batch_size : Option ℕ) (default : ℕ) (turn : Turn) (t : Table) (s k : String)
    (r : IdempotencyRequest)
    → turn.others t ≡ t
    → IsDistinct t
    → find s k t ≡ some r
    → turn.now < r.expires_at
    → find s k (cleanup_expired_idempotency_requests batch_size default turn t).0 ≡ some r
unfolding cleanup_expired_idempotency_requests
cleanup_keeps_unexpired batch_size default turn t s k r quiet d h kept =
    let n = effective_batch batch_size default in
    rw quiet (
      find-delete_all s k (expired_batch turn.now n t) t r
        (ids_differ turn.now r (expired_batch turn.now n t) (expired_batch-All turn.now n t) (
          take-All (Apart turn.now r) n _ (
            order_by_expiry-All (Apart turn.now r) _ (
              All-select (Apart turn.now r) (is_expired turn.now) t
                (Apart-rows turn.now s k t r d h kept)))))
        h)

-- Whether a row's id is one of the batch's.
abbrev in_batch : Table → IdempotencyRequest → Bool
in_batch [] x = false
in_batch (r ∷ rs) x = has_id r.id x || in_batch rs x

All-map :
    {P Q : IdempotencyRequest → Type 0} (t : Table)
    → ((x : IdempotencyRequest) → P x → Q x)
    → All P t
    → All Q t
All-map [] f h = tt
All-map (x ∷ t) f h = (f x h.0, All-map t f h.1)

All-delete :
    (P : IdempotencyRequest → Type 0) (i : ℕ) (t : Table)
    → All P t
    → All (λ x. P x × (has_id i x ≡ false)) (delete i t)
unfolding delete
All-delete P i [] h = tt
All-delete P i (x ∷ t) h = ground (arith, All-delete P i t h.1)

-- What is left of a table after its batched rows are gone.
All-delete_all :
    (P : IdempotencyRequest → Type 0) (rs t : Table)
    → All (λ x. (in_batch rs x ≡ true) ⊎ P x) t
    → All P (delete_all rs t)
unfolding delete_all
All-delete_all P [] t h = All-map t (λ x c. ground arith) h
All-delete_all P (r ∷ rs) t h = All-delete_all P rs (delete r.id t) (
    All-map (delete r.id t) (λ x c. ground arith)
      (All-delete (λ x. (in_batch (r ∷ rs) x ≡ true) ⊎ P x) r.id t h))

in_batch-insert :
    (r x : IdempotencyRequest) (t : Table)
    → in_batch (insert_by_expiry r t) x ≡ (has_id r.id x || in_batch t x)
unfolding insert_by_expiry
in_batch-insert r x [] = refl
in_batch-insert r x (y ∷ t) = ground (arith, in_batch-insert r x t)

-- Each row is in the ordered list of the expired ones, or has not expired.
abbrev Batched : ℕ → Table → IdempotencyRequest → Type 0
Batched now l x = (in_batch l x ≡ true) ⊎ (is_expired now x ≡ false)

All-Batched :
    (now : ℕ) (t : Table) → All (Batched now (order_by_expiry (select (is_expired now) t))) t
unfolding order_by_expiry
All-Batched now [] = tt
All-Batched now (y ∷ t) = elim (Bool-cases (is_expired now y)) [
  | inl old ↦
      let rest = order_by_expiry (select (is_expired now) t) in
      let chosen : select (is_expired now) (y ∷ t) ≡ y ∷ select (is_expired now) t = rw old in
      subst (λ l. All (Batched now (order_by_expiry l)) (y ∷ t)) (sym chosen)
        (
          ground (arith, in_batch-insert y y rest),
          All-map t (λ x c. ground (arith, in_batch-insert y x rest)) (All-Batched now t),
        )
  | inr young ↦
      let passed : select (is_expired now) (y ∷ t) ≡ select (is_expired now) t = rw young in
      subst (λ l. All (Batched now (order_by_expiry l)) (y ∷ t)) (sym passed)
        (inr young, All-Batched now t)
]

take_all : (n : ℕ) (t : Table) → length (take n t) < n → take n t ≡ t
take_all zero t h = absurd (omega arith)
take_all (suc n) [] h = refl
take_all (suc n) (x ∷ t) h = ap (◌∷◌ x) (take_all n t (omega arith))

-- A cleanup that nobody disturbs counts a full batch, or less than a batch and leaves no expired
-- record.
pub cleanup_completes :
    (batch_size : Option ℕ) (default : ℕ) (turn : Turn) (t : Table)
    → turn.others t ≡ t
    → let (left, count) = cleanup_expired_idempotency_requests batch_size default turn t in
      (count ≡ effective_batch batch_size default)
      ⊎ ((count < effective_batch batch_size default) × All (λ r. turn.now < r.expires_at) left)
unfolding cleanup_expired_idempotency_requests
cleanup_completes batch_size default turn t quiet =
    let n = effective_batch batch_size default in
    let old = order_by_expiry (select (is_expired turn.now) t) in
    elim (dec_lt (length (take n old)) n) [
      | no full ↦ inl (omega (arith, length-take n old))
      | yes few ↦ inr (
        few,
        rw (quiet, take_all n old few)
            (All-map _ (λ x c. ground arith)
              (All-delete_all (λ x. is_expired turn.now x ≡ false) old t (All-Batched turn.now t))),
      )
    ]
