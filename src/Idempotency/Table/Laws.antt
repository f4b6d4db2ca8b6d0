-- ===== src/Idempotency/Table/Laws.antt =====
-- How the queries of the idempotency table see its writes, and what keeps it valid.
use thryve_financial.Base.{
  ℕ, ◌≡◌, refl, String, Bool, true, false, none, some, List, [], ◌∷◌, arith, eq_iff, select, first,
  All, ◌&&◌, if◌then◌else◌,
}
use mathlib.Core.Option
use thryve_financial.Idempotency.Types.{IdempotencyRequest}
use thryve_financial.Idempotency.Table.{
  Table, has_key, has_id, find, get, delete, clash, add, set_row, update, IsDistinct,
}

-- A found row satisfies the test.
pub first_holds {ℓ} :
    {A : Type ℓ} (p : A → Bool) (xs : List A) (x : A) → first p xs ≡ some x → p x ≡ true
first_holds p [] x h = cc
first_holds p (y ∷ xs) x h = ground (arith, first_holds p xs x)

pub first-All {ℓ κ} :
    {A : Type ℓ} (P : A → Type κ) (p : A → Bool) (xs : List A) (x : A)
    → All P xs
    → first p xs ≡ some x
    → P x
first-All P p [] x hs h = absurd (ground arith)
first-All P p (y ∷ xs) x hs h = ground (arith, first-All P p xs x hs.1)

pub All-select {ℓ κ} :
    {A : Type ℓ} (P : A → Type κ) (p : A → Bool) (xs : List A) → All P xs → All P (select p xs)
All-select P p [] h = tt
All-select P p (x ∷ xs) h = ground (arith, All-select P p xs h.1)

-- A test that every row fails finds nothing.
pub first-none {ℓ} :
    {A : Type ℓ} (p : A → Bool) (xs : List A) → All (λ x. p x ≡ false) xs → first p xs ≡ none
first-none p [] h = refl
first-none p (x ∷ xs) h = ground (arith, first-none p xs h.1)

pub All-of_first-none {ℓ} :
    {A : Type ℓ} (p : A → Bool) (xs : List A) → first p xs ≡ none → All (λ x. p x ≡ false) xs
All-of_first-none p [] h = tt
All-of_first-none p (x ∷ xs) h = ground (arith, All-of_first-none p xs)

module _ (s k : String) where
  pub find-has_key :
      (t : Table) (r : IdempotencyRequest) → find s k t ≡ some r → has_key s k r ≡ true
  unfolding find
  find-has_key t r h = first_holds (has_key s k) t r h

  -- Rows that no row of the table clashes with are not found by a row's key.
  find_beyond :
      (r : IdempotencyRequest) (t : Table)
      → All (λ x. clash r x ≡ false) t
      → has_key s k r ≡ true
      → find s k t ≡ none
  unfolding find
  find_beyond r [] h e = refl
  find_beyond r (x ∷ t) h e = ground (
    arith,
    find_beyond r t h.1 e,
    eq_iff x.scope s,
    eq_iff r.scope s,
    eq_iff x.scope r.scope,
    eq_iff x.idempotency_key k,
    eq_iff r.idempotency_key k,
    eq_iff x.idempotency_key r.idempotency_key,
  )

  -- The row that a key finds is the one its id finds.
  pub get-find :
      (t : Table) (r : IdempotencyRequest)
      → IsDistinct t
      → find s k t ≡ some r
      → get r.id t ≡ some r
  unfolding find get
  get-find [] r d h = cc
  get-find (x ∷ t) r d h =
      ground (arith, get-find t r d.1, find_beyond x t d.0, first-All _ (has_key s k) t r d.0)

  find-delete-none : (i : ℕ) (t : Table) → find s k t ≡ none → find s k (delete i t) ≡ none
  unfolding find delete
  find-delete-none i [] h = refl
  find-delete-none i (x ∷ t) h = ground (arith, find-delete-none i t)

  -- Deleting the row that a key finds leaves none for the key.
  pub find-delete_self :
      (t : Table) (r : IdempotencyRequest)
      → IsDistinct t
      → find s k t ≡ some r
      → find s k (delete r.id t) ≡ none
  unfolding find delete
  find-delete_self [] r d h = refl
  find-delete_self (x ∷ t) r d h =
      ground (arith, find-delete_self t r d.1, find_beyond x t d.0, find-delete-none x.id t)

  -- Deleting a row with another key changes nothing for this one.
  pub find-delete_other :
      (i : ℕ) (t : Table)
      → All (λ x. (has_id i x && has_key s k x) ≡ false) t
      → find s k (delete i t) ≡ find s k t
  unfolding find delete
  find-delete_other i [] h = refl
  find-delete_other i (x ∷ t) h = ground (arith, find-delete_other i t h.1)

  pub find-set_row :
      (i : ℕ) (f : IdempotencyRequest → IdempotencyRequest) (t : Table)
      → ((r : IdempotencyRequest) → has_key s k (f r) ≡ has_key s k r)
      → find s k (set_row i f t) ≡ Option.map (λ r. if has_id i r then f r else r) (find s k t)
  unfolding find set_row
  find-set_row i f [] h = refl
  find-set_row i f (x ∷ t) h = ground (arith, find-set_row i f t h, h x)

  pub find-add_self :
      (r : IdempotencyRequest) (t u : Table)
      → add r t ≡ some u
      → has_key s k r ≡ true
      → find s k u ≡ some r
  unfolding find add
  find-add_self r t u h e = ground arith

  pub find-add_other :
      (r : IdempotencyRequest) (t u : Table)
      → add r t ≡ some u
      → has_key s k r ≡ false
      → find s k u ≡ find s k t
  unfolding find add
  find-add_other r t u h e = ground arith

pub get-has_id : (i : ℕ) (t : Table) (r : IdempotencyRequest) → get i t ≡ some r → r.id ≡ i
unfolding get
get-has_id i t r h = ground (arith, first_holds (has_id i) t r)

pub get-set_row :
    (i : ℕ) (f : IdempotencyRequest → IdempotencyRequest) (t : Table)
    → ((r : IdempotencyRequest) → (f r).id ≡ r.id)
    → get i (set_row i f t) ≡ Option.map f (get i t)
unfolding get set_row
get-set_row i f [] h = refl
get-set_row i f (x ∷ t) h = ground (arith, get-set_row i f t h, h x)

pub get-delete_self : (i : ℕ) (t : Table) → get i (delete i t) ≡ none
unfolding get delete
get-delete_self i [] = refl
get-delete_self i (x ∷ t) = ground (arith, get-delete_self i t)

-- An id that finds a row can be updated.
pub update_found :
    (i : ℕ) (f : IdempotencyRequest → IdempotencyRequest) (t : Table) (r : IdempotencyRequest)
    → get i t ≡ some r
    → update i f t ≡ some (set_row i f t)
unfolding get update
update_found i f t r h = ground arith

no_clash :
    (r : IdempotencyRequest) (t : Table)
    → get r.id t ≡ none
    → find r.scope r.idempotency_key t ≡ none
    → first (clash r) t ≡ none
unfolding get find
no_clash r [] e f = refl
no_clash r (x ∷ t) e f = ground (arith, no_clash r t)

-- A row whose id and key no row has can be added.
pub add_fresh :
    (r : IdempotencyRequest) (t : Table)
    → get r.id t ≡ none
    → find r.scope r.idempotency_key t ≡ none
    → add r t ≡ some (r ∷ t)
unfolding add
add_fresh r t free new = rw (no_clash r t free new)

pub get-delete-none : (i j : ℕ) (t : Table) → get i t ≡ none → get i (delete j t) ≡ none
unfolding get delete
get-delete-none i j [] h = refl
get-delete-none i j (x ∷ t) h = ground (arith, get-delete-none i j t)

-- Deleting an id that no row has changes nothing.
pub delete-absent : (i : ℕ) (t : Table) → get i t ≡ none → delete i t ≡ t
unfolding get delete
delete-absent i [] h = refl
delete-absent i (x ∷ t) h = ground (arith, delete-absent i t)

pub delete_front :
    (r : IdempotencyRequest) (t : Table) → get r.id t ≡ none → delete r.id (r ∷ t) ≡ t
unfolding delete
delete_front r t h =
    let same : has_id r.id r ≡ true = ground arith in rw same (delete-absent r.id t h)

pub get-All :
    (P : IdempotencyRequest → Type 0) (i : ℕ) (t : Table) (r : IdempotencyRequest)
    → All P t
    → get i t ≡ some r
    → P r
unfolding get
get-All P i t r h e = first-All P (has_id i) t r h e
