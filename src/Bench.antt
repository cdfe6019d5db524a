-- ===== src/Bench.antt =====
-- Benchmarks: bench.rs and bench/.
pub mod Float
pub mod Serialize
pub mod Identity
pub mod Content
pub mod Spec
pub mod Artifact
pub mod Env
pub mod Compare
pub mod Run
