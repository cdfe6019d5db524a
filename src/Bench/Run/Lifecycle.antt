-- ===== src/Bench/Run/Lifecycle.antt =====
-- bench/run.rs: `run`, the lifecycle of a benchmark.
pub mod Record
pub mod Complete
use Prim.Native.String.{len, slice, ◌++◌ as cat}
use sim_tooling.Support.{
  ℕ, zero, suc, ◌+◌, ◌^◌, ◌%◌, String, Bool, true, false, ◌==◌, ltb, Option, none, some, List, [],
  ◌∷◌, ◌++◌, Result, ok, err, ◌>>=◌, ◌>>◌, refuse_if, if◌then◌else◌,
}
use sim_tooling.Support.Maps.{Map}
use sim_tooling.Bench.Float.{F64}
use sim_tooling.Bench.Content.{Codec, ArtifactError}
use sim_tooling.Bench.Spec.{BenchSpec, SamplingPlan, nanoseconds}
use sim_tooling.Bench.Artifact.{RawObservation, new_observation}
use sim_tooling.Bench.Run.Shuffle.{Arm, baseline, candidate, ScheduleError, schedule}
use sim_tooling.Bench.Run.Calibration.{
  RunConfig, ConfigError, CalibrationError, validate, elapsed, calibrated_iterations,
}

pub data RunPhase : Type 0 where
  setup calibration warmup measured : RunPhase

abbrev pub Counters : Type 0
Counters = Map String ℕ

-- `MonotonicClock` and `Workload`: what they read and change is the world.
pub record Workload : Type 1 where
  pub World : Type 0
  pub now_ns : World → World × ℕ
  pub prepare : World → World × Result String (Unit {0})
  pub sample : Arm → RunPhase → ℕ → World → World × Result String Counters

pub record CalibrationDecision : Type 0 where
  pub probe_iterations : ℕ
  pub probe_duration_ns : ℕ
  pub target_duration_ns : ℕ
  pub selected_iterations : ℕ

pub data SampleStatus : Type 0 where
  completed timed_out : SampleStatus
  failed : String → SampleStatus

pub record SampleRecord : Type 0 where
  pub schedule_index : ℕ
  pub phase : RunPhase
  pub arm : Arm
  pub iterations : ℕ
  pub executed_iterations : Option ℕ
  pub duration_ns : ℕ
  pub counters : Counters
  pub status : SampleStatus

-- `truncate_panicked` is the panic of `String::truncate` inside a character.
pub data RunError : Type 0 where
  invalid_config : List ConfigError → RunError
  setup_failed calibration_failed : String → RunError
  bad_clock : CalibrationError → RunError
  bad_schedule : ScheduleError → RunError
  bad_observation : ArtifactError → RunError
  schedule_exceeds_u32 truncate_panicked : RunError

-- `map_err`
abbrev pub map_err {ℓ} : {E T : Type ℓ} → (E → RunError) → Result E T → Result RunError T
map_err f r = elim r [ ok t ↦ ok t | err e ↦ err (f e) ]

-- `String::truncate(4096)`: the longest prefix of whole characters that fits must fill the limit.
pub bounded : String → Result RunError String
bounded diagnostic =
    let kept = slice diagnostic 0 4096 in
    if ltb 4096 (len diagnostic)
    then if len kept == 4096 then ok kept else err truncate_panicked
    else ok diagnostic

unfoldable pub classify_attempt :
    Result String Counters → ℕ → ℕ → ℕ → Result RunError (Counters × Option ℕ × SampleStatus)
classify_attempt (ok counters) iterations duration_ns timeout_ns =
    if ltb timeout_ns duration_ns
    then ok (counters, some iterations, timed_out)
    else ok (counters, some iterations, completed)
classify_attempt (err e) iterations duration_ns timeout_ns = do
  diagnostic ← bounded e
  ok ([], none, failed diagnostic)

unfoldable pub arm_name : Arm → String
arm_name baseline = "baseline"
arm_name candidate = "candidate"

abbrev pub index_u32 : ℕ → Result RunError ℕ
index_u32 index = if ltb index (2 ^ 32) then ok index else err schedule_exceeds_u32

module _ (workload : Workload) where
  open workload use {World, now_ns, prepare, sample}

  -- One invocation between two readings of the clock, and its record.
  unfoldable pub attempt :
      RunConfig → ℕ → RunPhase → Arm → ℕ → World → Result RunError (SampleRecord × World)
  attempt config iterations phase arm index world = do
    let (world₁, start) = now_ns world
    let (world₂, result) = sample arm phase iterations world₁
    let (world₃, end) = now_ns world₂
    duration_ns ← map_err bad_clock (elapsed start end)
    classified ← classify_attempt result iterations duration_ns config.sample_timeout_ns
    ok (
      record {
        schedule_index = index;
        phase = phase;
        arm = arm;
        iterations = iterations;
        executed_iterations = classified.1;
        duration_ns = duration_ns;
        counters = classified.0;
        status = classified.2;
      },
      world₃,
    )

  -- `for index in 0..spec.sampling_plan.warmup_samples`, from `index` on.
  unfoldable pub warm_up :
      RunConfig → ℕ → ℕ → ℕ → World → Result RunError (List SampleRecord × World)
  warm_up config iterations index zero world = ok ([], world)
  warm_up config iterations index (suc left) world = do
    attempted ←
        attempt config iterations warmup (if index % 2 == 0 then baseline else candidate) index
          world
    rest ← warm_up config iterations (suc index) left attempted.1
    ok (attempted.0 ∷ rest.0, rest.1)

  module _ (f64 : F64) {Value : Type 0} (codec : Codec f64.F Value) where
    -- `if status == SampleStatus::Completed { observations.push(...) }`
    unfoldable pub observe :
        String → ℕ → Arm → ℕ → SampleStatus → Result RunError (List (RawObservation f64))
    observe spec_key index arm duration_ns completed = do
      index' ← index_u32 index
      let metric = cat (arm_name arm) "-duration"
      observation ←
          map_err bad_observation
            (new_observation f64 codec spec_key index' metric nanoseconds (f64.of_u64 duration_ns))
      ok (observation ∷ [])
    observe spec_key index arm duration_ns timed_out = ok []
    observe spec_key index arm duration_ns (failed diagnostic) = ok []

    -- The loop over the schedule, from position `index` on: the samples and the observations.
    unfoldable pub measure :
        RunConfig
        → String
        → ℕ
        → ℕ
        → List Arm
        → World
        → Result RunError (List SampleRecord × List (RawObservation f64) × World)
    measure config spec_key iterations index [] world = ok ([], [], world)
    measure config spec_key iterations index (arm ∷ arms) world = do
      attempted ← attempt config iterations measured arm index world
      observed ← observe spec_key index arm attempted.0.duration_ns attempted.0.status
      index' ← index_u32 index
      rest ← measure config spec_key iterations (suc index) arms attempted.1
      ok (attempted.0 ∷ rest.0, observed ++ rest.1, rest.2)

    pub record RunRecord : Type 0 where
      pub phases : List RunPhase
      pub calibration : CalibrationDecision
      pub realized_schedule : List Arm
      pub samples : List SampleRecord
      pub attempts : List SampleRecord
      pub observations : List (RawObservation f64)

    -- The calibration phase: the probe's record, the decision, and the world after it.
    unfoldable pub calibrate :
        RunConfig → World → Result RunError (SampleRecord × CalibrationDecision × World)
    calibrate config world = do
      let (world₁, start) = now_ns world
      let (world₂, probed) = sample candidate calibration config.calibration_probe_iterations world₁
      counters ← map_err calibration_failed probed
      let (world₃, end) = now_ns world₂
      probe_duration_ns ← map_err bad_clock (elapsed start end)
      selected ← map_err bad_clock (calibrated_iterations probe_duration_ns config)
      ok (
        record {
          schedule_index = 0;
          phase = calibration;
          arm = candidate;
          iterations = config.calibration_probe_iterations;
          executed_iterations = some config.calibration_probe_iterations;
          duration_ns = probe_duration_ns;
          counters = counters;
          status = completed;
        },
        record {
          probe_iterations = config.calibration_probe_iterations;
          probe_duration_ns = probe_duration_ns;
          target_duration_ns = config.calibration_target_ns;
          selected_iterations = selected;
        },
        world₃,
      )

    unfoldable pub run : BenchSpec f64 Value → RunConfig → World → Result RunError RunRecord
    run spec config world = do
      map_err invalid_config (validate config)
      let (world₁, prepared) = prepare world
      map_err setup_failed prepared
      calibrated ← calibrate config world₁
      let iterations = calibrated.1.selected_iterations
      warmed ← warm_up config iterations 0 spec.sampling_plan.warmup_samples calibrated.2
      arms ←
          map_err bad_schedule
            (schedule spec.sampling_plan.measured_samples spec.sampling_plan.seed)
      done ← measure config spec.content_key iterations 0 arms warmed.1
      ok (record {
        phases = setup ∷ calibration ∷ warmup ∷ measured ∷ [];
        calibration = calibrated.1;
        realized_schedule = arms;
        samples = done.0;
        attempts = calibrated.0 ∷ warmed.0 ++ done.0;
        observations = done.1;
      })
