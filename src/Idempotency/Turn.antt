-- ===== src/Idempotency/Turn.antt =====
-- What a transaction of pfm/app/core/idempotency.py meets: the clock, the id that the database
-- would give a new row, whether the database answers, and the commits of other sessions that fall
-- between the transaction's read and its write. A transaction that does not answer writes nothing.
use thryve_financial.Base.{ℕ, Bool, true, ◌≡◌, none}
use thryve_financial.Idempotency.Types.{Failure}
use thryve_financial.Idempotency.Table.{Table, IsValid, get}

pub record Turn : Type 0 where
  pub now : ℕ
  pub fresh_id : ℕ
  pub up : Bool
  pub others : Table → Table

-- How one pass of a loop ends: it returns, raises, or goes round again.
pub data Pass {ℓ} (A : Type ℓ) : Type ℓ where
  returned : A → Pass A
  raised : Failure → Pass A
  again : Pass A

-- Nobody else commits during the turn, the database answers, and its new id is in no row.
pub record IsQuiet (turn : Turn) (t : Table) : Type 0 where
  pub answers : turn.up ≡ true
  pub alone : (u : Table) → turn.others u ≡ u
  pub new_id : get turn.fresh_id t ≡ none

-- The other sessions commit valid tables, as the database's constraints make them.
pub record IsFair (turn : Turn) : Type 0 where
  pub keeps : (t : Table) → IsValid t → IsValid (turn.others t)

-- `while True` over passes: only `again` reaches the next one.
abbrev pub go_round {ℓ κ} : {A : Type ℓ} {S : Type κ} → Pass A × S → (S → Pass A × S) → Pass A × S
go_round (returned a, s) next = (returned a, s)
go_round (raised e, s) next = (raised e, s)
go_round (again, s) next = next s
