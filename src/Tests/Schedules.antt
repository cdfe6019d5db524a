-- ===== src/Tests/Schedules.antt =====
-- Runs of the schedule and the calibration.
use sim_tooling.Support.{
  ℕ, ◌≡◌, ◌⊎◌, ◌≤◌, ◌<◌, ◌-◌, ◌+◌, ◌*◌, ◌↔◌, List, length, ok, err, arith, count,
}
use sim_tooling.Bench.Run.Shuffle.{Arm, schedule, u64_mod}
use sim_tooling.Bench.Run.Shuffle.Balance.{schedule_balanced, is_baseline, is_candidate}
use sim_tooling.Bench.Run.Calibration.{
  RunConfig, validate, calibrated_iterations, zero_probe_duration, arithmetic_overflowed,
}
use sim_tooling.Bench.Run.Calibration.Bounds.{
  IsValid, IsChosen, wanted, validate_iff, calibrated_iterations_lem,
}

schedule_balanced_example :
    (arms : List Arm) × (schedule 3 7 ≡ ok arms)
    × (count is_baseline arms ≡ 3)
    × (count is_candidate arms ≡ 3)
    × (length arms ≡ 3 * 2)
schedule_balanced_example = schedule_balanced 3 7 (omega arith)

abbrev pub config : RunConfig
config = record {
  calibration_target_ns = 1000;
  calibration_probe_iterations = 4;
  max_iterations = 64;
  sample_timeout_ns = 50000;
}

config-IsValid : IsValid config
config-IsValid = record {
  target = omega arith;
  probe = omega arith;
  limit = omega arith;
  timeout = omega arith;
}

validate_iff_example : (validate config ≡ ok tt) ↔ IsValid config
validate_iff_example = validate_iff config

calibrated_iterations_example :
    ((◌≡◌ {A = ℕ} 120 0) × (calibrated_iterations 120 config ≡ err zero_probe_duration))
    ⊎ (((0 < 120)
          × (u64_mod ≤ wanted config + (120 - 1))
          × (calibrated_iterations 120 config ≡ err arithmetic_overflowed))
        ⊎ ((0 < 120)
            × (wanted config + (120 - 1) < u64_mod)
            × ((n : ℕ) × (calibrated_iterations 120 config ≡ ok n) × IsChosen 120 config n)))
calibrated_iterations_example = calibrated_iterations_lem 120 config config-IsValid
