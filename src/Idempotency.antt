-- ===== src/Idempotency.antt =====
-- pfm/app/core/idempotency.py and pfm/app/models/idempotency.py: the executor that runs a mutation
-- once for a key and replays its recorded result, by component.
pub mod Types
pub mod Resolution
pub mod Fingerprint
pub mod Table
pub mod Turn
pub mod Claim
pub mod Execute
pub mod Cleanup
pub mod Submit
mod Tests
