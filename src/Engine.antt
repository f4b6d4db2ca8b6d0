-- ===== src/Engine.antt =====
-- pfm/app/engine: the category taxonomy and the vendors' labels.
pub mod Taxonomy
pub mod Mappings
mod Tests
