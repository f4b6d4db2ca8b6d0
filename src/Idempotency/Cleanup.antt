-- ===== src/Idempotency/Cleanup.antt =====
-- `cleanup_expired_idempotency_requests` of pfm/app/core/idempotency.py: one transaction that
-- deletes a batch of expired records, those that expired first before the others.
pub mod Laws
use thryve_financial.Base.{
  ℕ, zero, suc, Bool, Option, none, some, List, [], ◌∷◌, leb, length, take, select, if◌then◌else◌,
}
use thryve_financial.Idempotency.Types.{IdempotencyRequest}
use thryve_financial.Idempotency.Table.{Table, delete}
use thryve_financial.Idempotency.Turn.{Turn}

-- `batch_size or settings.idempotency_cleanup_batch_size`
abbrev pub effective_batch : Option ℕ → ℕ → ℕ
effective_batch none default = default
effective_batch (some zero) default = default
effective_batch (some (suc n)) default = suc n

-- `ORDER BY expires_at ASC`, which leaves open how equal times are ordered.
unfoldable pub insert_by_expiry : IdempotencyRequest → Table → Table
insert_by_expiry r [] = r ∷ []
insert_by_expiry r (x ∷ t) =
    if leb r.expires_at x.expires_at then r ∷ x ∷ t else x ∷ insert_by_expiry r t

unfoldable pub order_by_expiry : Table → Table
unfolding insert_by_expiry
order_by_expiry [] = []
order_by_expiry (r ∷ t) = insert_by_expiry r (order_by_expiry t)

-- `WHERE expires_at <= now`
abbrev pub is_expired : ℕ → IdempotencyRequest → Bool
is_expired now r = leb r.expires_at now

unfoldable pub expired_batch : ℕ → ℕ → Table → Table
unfolding order_by_expiry
expired_batch now batch t = take batch (order_by_expiry (select (is_expired now) t))

unfoldable pub delete_all : Table → Table → Table
delete_all [] t = t
delete_all (r ∷ rs) t = delete_all rs (delete r.id t)

-- The table left and the count returned.
unfoldable pub cleanup_expired_idempotency_requests : Option ℕ → ℕ → Turn → Table → Table × ℕ
unfolding expired_batch delete_all
cleanup_expired_idempotency_requests batch_size default turn t =
    let records = expired_batch turn.now (effective_batch batch_size default) t in
    (delete_all records (turn.others t), length records)
