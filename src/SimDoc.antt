-- ===== src/SimDoc.antt =====
-- crates/simdoc: the documentation generator.
pub mod Cut
