-- ===== src/BuildInputs.antt =====
-- build_inputs/: which packages of a Cargo workspace take part in a build.
pub mod Json
pub mod Closure
