-- ===== src/Tests/Runs.antt =====
-- A run of the benchmark's lifecycle.
use sim_tooling.Support.{ℕ, ◌+◌, ◌≡◌, refl, String, some, [], ◌∷◌, ok, count, arith}
use sim_tooling.Support.Text.{is_blank}
use sim_tooling.Bench.Content.{content_key}
use sim_tooling.Bench.Spec.{nanoseconds}
use sim_tooling.Bench.Artifact.{RawObservation, new_observation, observation_identity}
use sim_tooling.Bench.Run.Shuffle.{
  Arm, baseline, candidate, schedule, shuffle, swap, splitmix64, pairs,
}
use sim_tooling.Bench.Run.Shuffle.Balance.{is_baseline, is_candidate}
use sim_tooling.Bench.Run.Calibration.{validate, elapsed, calibrated_iterations}
use sim_tooling.Bench.Run.Lifecycle.{
  RunPhase, setup, calibration, warmup, measured, Workload, SampleRecord, completed, RunRecord, run,
  calibrate, attempt, warm_up, measure, observe, classify_attempt, arm_name,
}
use sim_tooling.Bench.Run.Lifecycle.Complete.{IsRun, run-IsRun, run_balanced}
use sim_tooling.Tests.Numbers.{percents}
use sim_tooling.Tests.Specifications.{plain, spec}
use sim_tooling.Tests.Schedules.{config}

-- The world is the time; a sample takes 30.
abbrev ticking : Workload
ticking = record {
  World = ℕ;
  now_ns = λ t. (t, t);
  prepare = λ t. (t + 1, ok tt);
  sample = λ arm phase n t. (t + 30, ok []);
}

abbrev kept : ℕ → RunPhase → Arm → ℕ → SampleRecord
kept index phase arm iterations = record {
  schedule_index = index;
  phase = phase;
  arm = arm;
  iterations = iterations;
  executed_iterations = some iterations;
  duration_ns = 30;
  counters = [];
  status = completed;
}

abbrev observed : ℕ → String → RawObservation percents
observed index metric = record {
  schema_revision = 1;
  content_key = "sha256:d1";
  spec_key = "sha256:d1";
  sample_index = index;
  metric = metric;
  unit = nanoseconds;
  value = 30;
}

abbrev recorded : RunRecord ticking percents plain
recorded = record {
  phases = setup ∷ calibration ∷ warmup ∷ measured ∷ [];
  calibration = record {
    probe_iterations = 4;
    probe_duration_ns = 30;
    target_duration_ns = 1000;
    selected_iterations = 64;
  };
  realized_schedule = baseline ∷ candidate ∷ [];
  samples = kept 0 measured baseline 64 ∷ kept 1 measured candidate 64 ∷ [];
  attempts =
      kept 0 calibration candidate 4
      ∷ kept 0 warmup baseline 64
      ∷ kept 0 measured baseline 64
      ∷ kept 1 measured candidate 64
      ∷ [];
  observations = observed 0 "baseline-duration" ∷ observed 1 "candidate-duration" ∷ [];
}

run_returned : run ticking percents plain spec config 0 ≡ ok recorded
unfolding run calibrate attempt warm_up measure observe classify_attempt arm_name new_observation
    observation_identity content_key is_blank schedule shuffle swap splitmix64 pairs validate
    elapsed calibrated_iterations
run_returned = refl

run-IsRun_example : IsRun ticking percents plain spec config 0 recorded
run-IsRun_example = run-IsRun ticking percents plain spec config 0 recorded run_returned

run_balanced_example :
    (count (λ s. is_baseline s.arm) recorded.samples ≡ 1)
    × (count (λ s. is_candidate s.arm) recorded.samples ≡ 1)
run_balanced_example =
    run_balanced ticking percents plain spec config 0 recorded (omega arith) run_returned
