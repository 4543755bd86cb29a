-- ===== src/Persistence.antt =====
-- crates/persistence: the pages that the repositories answer with.
pub mod Pages
