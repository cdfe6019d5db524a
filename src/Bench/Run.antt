-- ===== src/Bench/Run.antt =====
-- bench/run.rs: calibration, the measured schedule and the benchmark lifecycle.
pub mod Shuffle
pub mod Calibration
pub mod Lifecycle
