-- ===== src/Bench/Run/Calibration.antt =====
-- bench/run.rs: `RunConfig`, `calibrated_iterations` and `elapsed`.
pub mod Bounds
use sim_tooling.Support.{
  ℕ, Bool, ◌+◌, ◌-◌, ◌*◌, ◌/◌, ◌<◌, List, [], ◌∷◌, ◌++◌, ltb, ◌==◌, Result, ok, err, ◌>>=◌, ◌>>◌,
  ok_or, refuse_if, if◌then◌else◌,
}
use sim_tooling.Bench.Run.Shuffle.{checked_mul, checked_add}

pub record RunConfig : Type 0 where
  pub calibration_target_ns : ℕ
  pub calibration_probe_iterations : ℕ
  pub max_iterations : ℕ
  pub sample_timeout_ns : ℕ

-- The messages that `validate` collects.
pub data ConfigError : Type 0 where
  zero_target zero_probe zero_max zero_timeout : ConfigError

abbrev error_if : Bool → ConfigError → List ConfigError
error_if b e = if b then e ∷ [] else []

config_errors : RunConfig → List ConfigError
config_errors c =
    error_if (c.calibration_target_ns == 0) zero_target
    ++ (error_if (c.calibration_probe_iterations == 0) zero_probe
        ++ (error_if (c.max_iterations == 0) zero_max
            ++ error_if (c.sample_timeout_ns == 0) zero_timeout))

unfoldable pub validate : RunConfig → Result (List ConfigError) (Unit {0})
unfolding config_errors
validate c = elim (config_errors c) [ [] ↦ ok tt | e ∷ es ↦ err (e ∷ es) ]

-- `clamp_panicked` is the panic of `Ord::clamp` on an empty range.
pub data CalibrationError : Type 0 where
  clock_moved_backwards zero_probe_duration arithmetic_overflowed clamp_panicked : CalibrationError

pub clamp : ℕ → ℕ → ℕ → Result CalibrationError ℕ
clamp lo hi n =
    if ltb hi lo
    then err clamp_panicked
    else ok (if ltb n lo then lo else if ltb hi n then hi else n)

-- `end.checked_sub(start)`
unfoldable pub elapsed : ℕ → ℕ → Result CalibrationError ℕ
elapsed start end = if ltb end start then err clock_moved_backwards else ok (end - start)

unfoldable pub calibrated_iterations : ℕ → RunConfig → Result CalibrationError ℕ
unfolding clamp
calibrated_iterations probe_ns config = do
  refuse_if (probe_ns == 0) zero_probe_duration
  product ←
      ok_or (checked_mul config.calibration_target_ns config.calibration_probe_iterations)
        arithmetic_overflowed
  numerator ← ok_or (checked_add product (probe_ns - 1)) arithmetic_overflowed
  clamp 1 config.max_iterations (numerator / probe_ns)
