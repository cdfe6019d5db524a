-- ===== src/Overlap.antt =====
-- The source-overlap check of the index.
pub mod Exceptions
pub mod EdgePaths
pub mod Coverage
