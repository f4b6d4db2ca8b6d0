-- ===== src/Idempotency/Table.antt =====
-- The table of pfm/app/models/idempotency.py: its rows, its queries and its unique constraint.
pub mod Laws
pub mod Validity
use thryve_financial.Base.{
  ℕ, ◌≡◌, String, Bool, true, false, not, ◌&&◌, ◌||◌, Option, none, some, List, [], ◌∷◌, eqb, ◌==◌,
  if◌then◌else◌, select, first, All, is_some,
}
use thryve_financial.Idempotency.Types.{IdempotencyRequest, processing, completed}

abbrev pub Table : Type 0
Table = List IdempotencyRequest

-- `WHERE scope = … AND idempotency_key = …`
abbrev pub has_key : String → String → IdempotencyRequest → Bool
has_key scope key r = r.scope == scope && r.idempotency_key == key

abbrev pub has_id : ℕ → IdempotencyRequest → Bool
has_id i r = eqb r.id i

-- `session.scalar(select(IdempotencyRequest).where(…))`
unfoldable pub find : String → String → Table → Option IdempotencyRequest
find scope key = first (has_key scope key)

-- `session.get(IdempotencyRequest, id)`
unfoldable pub get : ℕ → Table → Option IdempotencyRequest
get i = first (has_id i)

unfoldable pub delete : ℕ → Table → Table
delete i = select (λ r. not (has_id i r))

-- The rows that the primary key or `uq_idempotency_scope_key` sets against a new row.
abbrev pub clash : IdempotencyRequest → IdempotencyRequest → Bool
clash r s = has_id r.id s || has_key r.scope r.idempotency_key s

-- `none` is the `IntegrityError` of a flush.
unfoldable pub add : IdempotencyRequest → Table → Option Table
add r t = if is_some (first (clash r) t) then none else some (r ∷ t)

-- The columns of the row with this id are set.
unfoldable pub set_row : ℕ → (IdempotencyRequest → IdempotencyRequest) → Table → Table
set_row i f [] = []
set_row i f (r ∷ t) = (if has_id i r then f r else r) ∷ set_row i f t

-- An UPDATE by the id; `none` is the `StaleDataError` of a row that is gone.
unfoldable pub update : ℕ → (IdempotencyRequest → IdempotencyRequest) → Table → Option Table
unfolding set_row
update i f t = if is_some (first (has_id i) t) then some (set_row i f t) else none

-- No two rows share an id, or a scope and a key.
abbrev pub IsDistinct : Table → Type 0
IsDistinct [] = Unit {0}
IsDistinct (r ∷ t) = All (λ s. clash r s ≡ false) t × IsDistinct t

-- A processing row is leased and has no result; a completed row has a result and no lease.
abbrev pub IsConsistent : IdempotencyRequest → Type 0
IsConsistent r = elim r.status [
  | processing ↦
      (is_some r.lease_owner ≡ true)
      × (is_some r.lease_expires_at ≡ true)
      × (r.result_ref ≡ none)
      × (r.response_status_code ≡ none)
  | completed ↦
      (r.lease_owner ≡ none)
      × (r.lease_expires_at ≡ none)
      × (is_some r.result_ref ≡ true)
      × (is_some r.response_status_code ≡ true)
]

pub record IsValid (t : Table) : Type 0 where
  pub distinct : IsDistinct t
  pub consistent : All IsConsistent t
