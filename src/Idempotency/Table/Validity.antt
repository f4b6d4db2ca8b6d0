-- ===== src/Idempotency/Table/Validity.antt =====
-- What keeps the idempotency table valid: its unique constraint, and rows that stay consistent.
use thryve_financial.Base.{
  ℕ, ◌≡◌, refl, sym, subst, false, not, none, some, [], ◌∷◌, arith, first, All, Bool-cases,
  Option-cases, inl, inr,
}
use thryve_financial.Idempotency.Types.{IdempotencyRequest}
use thryve_financial.Idempotency.Table.{
  Table, has_id, get, delete, clash, add, set_row, update, IsDistinct, IsConsistent, IsValid,
}
use thryve_financial.Idempotency.Table.Laws.{All-select, All-of_first-none}

delete-IsDistinct : (i : ℕ) (t : Table) → IsDistinct t → IsDistinct (delete i t)
unfolding delete
delete-IsDistinct i [] d = tt
delete-IsDistinct i (x ∷ t) d = ground (
  arith,
  delete-IsDistinct i t d.1,
  All-select (λ y. clash x y ≡ false) (λ y. not (has_id i y)) t d.0,
)

pub delete-IsValid : (i : ℕ) (t : Table) → IsValid t → IsValid (delete i t)
delete-IsValid i t v = record {
  distinct = delete-IsDistinct i t v.distinct;
  consistent = unfold delete in All-select IsConsistent (λ y. not (has_id i y)) t v.consistent;
}

-- An addition puts the row in front of a table that has no clash with it.
add-rows :
    (r : IdempotencyRequest) (t u : Table)
    → add r t ≡ some u
    → (u ≡ r ∷ t) × (first (clash r) t ≡ none)
unfolding add
add-rows r t u e = ground arith

pub add-IsValid :
    (r : IdempotencyRequest) (t u : Table)
    → IsConsistent r
    → add r t ≡ some u
    → IsValid t
    → IsValid u
add-IsValid r t u c e v =
    let (rows, free) = add-rows r t u e in
    rw rows (record {
      distinct = (All-of_first-none (clash r) t free, v.distinct);
      consistent = (c, v.consistent);
    })

-- A change that keeps the id, the scope and the key.
pub record KeepsKey (f : IdempotencyRequest → IdempotencyRequest) : Type 0 where
  pub same_id : (r : IdempotencyRequest) → (f r).id ≡ r.id
  pub same_scope : (r : IdempotencyRequest) → (f r).scope ≡ r.scope
  pub same_key : (r : IdempotencyRequest) → (f r).idempotency_key ≡ r.idempotency_key

module _ (i : ℕ) (f : IdempotencyRequest → IdempotencyRequest) (keeps : KeepsKey f) where
  set_row-beyond :
      (r : IdempotencyRequest) (t : Table)
      → All (λ x. clash r x ≡ false) t
      → All (λ x. clash r x ≡ false) (set_row i f t)
  unfolding set_row
  set_row-beyond r [] h = tt
  set_row-beyond r (x ∷ t) h =
      ground (arith, set_row-beyond r t h.1, keeps.same_id x, keeps.same_scope x, keeps.same_key x)

  clash-set :
      (r : IdempotencyRequest) (t : Table)
      → All (λ x. clash r x ≡ false) t
      → All (λ x. clash (f r) x ≡ false) t
  clash-set r [] h = tt
  clash-set r (x ∷ t) h =
      ground (arith, clash-set r t h.1, keeps.same_id r, keeps.same_scope r, keeps.same_key r)

  set_row-IsDistinct : (t : Table) → IsDistinct t → IsDistinct (set_row i f t)
  unfolding set_row
  set_row-IsDistinct [] d = tt
  set_row-IsDistinct (x ∷ t) d = elim (Bool-cases (has_id i x)) [
    | inl hit ↦ rw hit (clash-set x _ (set_row-beyond x t d.0), set_row-IsDistinct t d.1)
    | inr miss ↦ rw miss (set_row-beyond x t d.0, set_row-IsDistinct t d.1)
  ]

-- In the rest of a distinct table no row has the first row's id, so nothing there is set.
set_row-absent :
    (r : IdempotencyRequest) (f : IdempotencyRequest → IdempotencyRequest) (t : Table)
    → All (λ x. clash r x ≡ false) t
    → set_row r.id f t ≡ t
unfolding set_row
set_row-absent r f [] h = refl
set_row-absent r f (x ∷ t) h = ground (arith, set_row-absent r f t h.1)

set_row-IsConsistent :
    (i : ℕ) (f : IdempotencyRequest → IdempotencyRequest) (t : Table) (r : IdempotencyRequest)
    → IsDistinct t
    → get i t ≡ some r
    → IsConsistent (f r)
    → All IsConsistent t
    → All IsConsistent (set_row i f t)
unfolding set_row get
set_row-IsConsistent i f [] r d e c h = tt
set_row-IsConsistent i f (x ∷ t) r d e c h = elim (Bool-cases (has_id i x)) [
  | inl hit ↦
      let here : x ≡ r = ground arith in
      let same : x.id ≡ i = ground arith in
      rw hit (
        subst (λ y. IsConsistent (f y)) (sym here) c,
        subst (λ j. All IsConsistent (set_row j f t)) same (rw (set_row-absent x f t d.0) h.1),
      )
  | inr miss ↦ rw miss (h.0, set_row-IsConsistent i f t r d.1 (ground arith) c h.1)
]

pub set_row-IsValid :
    (i : ℕ) (f : IdempotencyRequest → IdempotencyRequest) (t : Table) (r : IdempotencyRequest)
    → KeepsKey f
    → get i t ≡ some r
    → IsConsistent (f r)
    → IsValid t
    → IsValid (set_row i f t)
set_row-IsValid i f t r k e c v = record {
  distinct = set_row-IsDistinct i f k t v.distinct;
  consistent = set_row-IsConsistent i f t r v.distinct e c v.consistent;
}

-- An update that finds its row keeps the table valid if the new row is consistent.
pub update-IsValid :
    (i : ℕ) (f : IdempotencyRequest → IdempotencyRequest) (t u : Table)
    → KeepsKey f
    → update i f t ≡ some u
    → ((r : IdempotencyRequest) → get i t ≡ some r → IsConsistent (f r))
    → IsValid t
    → IsValid u
update-IsValid i f t u k e c v = elim (Option-cases (get i t)) [
  | inl gone ↦ absurd (unfold update get in ground arith)
  | inr (r, found) ↦
      let set : u ≡ set_row i f t = unfold update get in ground arith in
      rw set (set_row-IsValid i f t r k found (c r found) v)
]
