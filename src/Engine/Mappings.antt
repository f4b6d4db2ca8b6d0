-- ===== src/Engine/Mappings.antt =====
-- pfm/app/engine/mappings.py: the vendors' labels and their categories. A set is the list of its
-- members.
pub mod Plaid
pub mod Pave
pub mod Resolve
pub mod Targets
pub mod Merchants
