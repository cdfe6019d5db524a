-- ===== src/Bench/Spec.antt =====
-- bench.rs: `BenchSpec`, its validation and its content key.
pub mod Canonical
pub mod Admissible
pub mod Built
use sim_tooling.Support.{
  ℕ, zero, suc, String, Bool, true, false, not, ◌||◌, ◌==◌, Option, none, some, List, [], ◌∷◌, ◌++◌,
  Result, ok, err, ◌>>=◌, ◌>>◌, if◌then◌else◌, text_order,
}
use sim_tooling.Support.Sorting.{sort, dedup}
use sim_tooling.Support.Maps.{Map}
use sim_tooling.Bench.Float.{F64}
pub use sim_tooling.Bench.Identity.{
  MetricUnit, nanoseconds, bytes, count, operations_per_second, ratio, MetricDirection,
  lower_is_better, higher_is_better, BuildIdentity, MetricSpec, SamplingPlan,
  EnvironmentRequirements, WorkloadIdentity, ComparisonPolicy, BenchSpecIdentity,
}
use sim_tooling.Bench.Identity.{serialize_identity}
use sim_tooling.Bench.Content.{
  Codec, ArtifactError, must_not_be_empty, metric_name_empty, no_metric, no_measured_samples,
  noise_floor_not_admissible, confidence_not_admissible, threshold_not_admissible,
  threshold_without_samples, noise_above_threshold, no_cpus, content_key, required,
}

abbrev error_if : Bool → ArtifactError → List ArtifactError
error_if b e = if b then e ∷ [] else []

-- `Value` is `serde_json::Value`.
module _ (f64 : F64) (Value : Type 0) where
  open f64 use {F}

  pub record BenchSpec : Type 0 where
    pub schema_revision : ℕ
    pub content_key : String
    pub workload : WorkloadIdentity f64 Value
    pub build : BuildIdentity
    pub metrics : List MetricSpec
    pub sampling_plan : SamplingPlan
    pub comparison_policy : ComparisonPolicy f64 Value
    pub environment : EnvironmentRequirements
    pub comment : Option String

  unfoldable pub identity : BenchSpec → BenchSpecIdentity f64 Value
  identity s = record {
    schema_revision = s.schema_revision;
    workload = s.workload;
    build = s.build;
    metrics = s.metrics;
    sampling_plan = s.sampling_plan;
    comparison_policy = s.comparison_policy;
    environment = s.environment;
  }

  module _ (codec : Codec F Value) where
    -- `for (index, metric) in self.metrics.iter().enumerate()`
    unfoldable pub metric_errors : ℕ → List MetricSpec → List ArtifactError
    metric_errors index [] = []
    metric_errors index (metric ∷ rest) =
        required metric.name (metric_name_empty index) ++ metric_errors (suc index) rest

    unfoldable pub name_errors : BenchSpec → List ArtifactError
    name_errors s =
        required s.workload.name (must_not_be_empty "workload.name")
        ++ (required s.workload.revision (must_not_be_empty "workload.revision")
            ++ (required s.build.source_revision (must_not_be_empty "build.source_revision")
                ++ (required s.build.target (must_not_be_empty "build.target")
                    ++ (required s.build.profile (must_not_be_empty "build.profile")
                        ++ required s.build.toolchain (must_not_be_empty "build.toolchain")))))

    -- `if let Some(threshold) = policy.required_threshold`
    unfoldable pub threshold_errors : ℕ → F → Option F → List ArtifactError
    threshold_errors samples noise_floor none = []
    threshold_errors samples noise_floor (some threshold) =
        error_if (not (f64.is_finite threshold) || f64.lt threshold f64.zero)
          threshold_not_admissible
        ++ (error_if (samples == 0) threshold_without_samples
            ++ error_if (f64.lt threshold noise_floor) noise_above_threshold)

    unfoldable pub policy_errors : BenchSpec → List ArtifactError
    policy_errors s =
        let policy = s.comparison_policy in
        error_if (s.sampling_plan.measured_samples == 0) no_measured_samples
        ++ (error_if (not (f64.is_finite policy.noise_floor) || f64.lt policy.noise_floor f64.zero)
              noise_floor_not_admissible
            ++ (error_if
                  (not (f64.is_finite policy.confidence_level)
                    || (f64.le policy.confidence_level f64.zero
                        || f64.le f64.one policy.confidence_level))
                  confidence_not_admissible
                ++ (threshold_errors s.sampling_plan.measured_samples policy.noise_floor
                      policy.required_threshold
                    ++ error_if (s.environment.minimum_logical_cpus == 0) no_cpus)))

    unfoldable pub spec_errors : BenchSpec → List ArtifactError
    spec_errors s =
        name_errors s
        ++ (elim s.metrics [ [] ↦ no_metric ∷ [] | _ ∷ _ ↦ [] ]
            ++ (metric_errors 0 s.metrics ++ policy_errors s))

    unfoldable pub validate : BenchSpec → Result (List ArtifactError) (Unit {0})
    validate s = elim (spec_errors s) [ [] ↦ ok tt | e ∷ es ↦ err (e ∷ es) ]

    -- `features.sort(); features.dedup()`
    unfoldable pub sorted_build : BuildIdentity → BuildIdentity
    sorted_build build = record {
      source_revision = build.source_revision;
      target = build.target;
      profile = build.profile;
      features = dedup (sort build.features);
      toolchain = build.toolchain;
    }

    unfoldable pub sorted_environment : EnvironmentRequirements → EnvironmentRequirements
    sorted_environment environment = record {
      operating_system = environment.operating_system;
      architecture = environment.architecture;
      minimum_logical_cpus = environment.minimum_logical_cpus;
      minimum_memory_bytes = environment.minimum_memory_bytes;
      capabilities = dedup (sort environment.capabilities);
      network_isolation = environment.network_isolation;
    }

    -- The record before its key is known.
    unfoldable pub unkeyed :
        WorkloadIdentity f64 Value
        → BuildIdentity
        → List MetricSpec
        → SamplingPlan
        → ComparisonPolicy f64 Value
        → EnvironmentRequirements
        → Option String
        → String
        → BenchSpec
    unkeyed workload build metrics plan policy environment comment key = record {
      schema_revision = 1;
      content_key = key;
      workload = workload;
      build = sorted_build build;
      metrics = metrics;
      sampling_plan = plan;
      comparison_policy = policy;
      environment = sorted_environment environment;
      comment = comment;
    }

    -- `BenchSpec::new`
    unfoldable pub new :
        WorkloadIdentity f64 Value
        → BuildIdentity
        → List MetricSpec
        → SamplingPlan
        → ComparisonPolicy f64 Value
        → EnvironmentRequirements
        → Option String
        → Result (List ArtifactError) BenchSpec
    new workload build metrics plan policy environment comment = do
      let spec = unkeyed workload build metrics plan policy environment comment
      validate (spec "")
      elim (content_key codec (serialize_identity f64 Value (identity (spec "")))) [
        | ok key ↦ ok (spec key)
        | err e ↦ err (e ∷ [])
      ]
