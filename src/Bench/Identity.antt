-- ===== src/Bench/Identity.antt =====
-- bench.rs: the parts of a specification and what its content key covers, with the derived
-- implementations of `Serialize`.
pub mod PrefixFree
pub mod Injective
use sim_tooling.Support.{ℕ, String, Bool, Option, none, some, List, [], ◌∷◌, ◌++◌}
use sim_tooling.Support.Maps.{Map}
use sim_tooling.Bench.Float.{F64}
use sim_tooling.Bench.Serialize.{
  Call, null, begin_map, begin_sequence, end, boolean, number, float, text, write_struct,
  write_option, write_texts, write_parameters,
}

pub data MetricUnit : Type 0 where
  nanoseconds bytes count operations_per_second ratio : MetricUnit

pub data MetricDirection : Type 0 where
  lower_is_better higher_is_better : MetricDirection

pub record BuildIdentity : Type 0 where
  pub source_revision : String
  pub target : String
  pub profile : String
  pub features : List String
  pub toolchain : String

pub record MetricSpec : Type 0 where
  pub name : String
  pub unit : MetricUnit
  pub direction : MetricDirection

pub record SamplingPlan : Type 0 where
  pub warmup_samples : ℕ
  pub measured_samples : ℕ
  pub seed : ℕ

pub record EnvironmentRequirements : Type 0 where
  pub operating_system : Option String
  pub architecture : Option String
  pub minimum_logical_cpus : ℕ
  pub minimum_memory_bytes : ℕ
  pub capabilities : List String
  pub network_isolation : Bool

-- The names of the variants in kebab case.
unfoldable pub unit_name : MetricUnit → String
unit_name nanoseconds = "nanoseconds"
unit_name bytes = "bytes"
unit_name count = "count"
unit_name operations_per_second = "operations-per-second"
unit_name ratio = "ratio"

unfoldable pub direction_name : MetricDirection → String
direction_name lower_is_better = "lower-is-better"
direction_name higher_is_better = "higher-is-better"

module _ {F Value : Type 0} where
  unfoldable pub serialize_build : BuildIdentity → List (Call F Value)
  serialize_build build = write_struct (
      ("source_revision", text build.source_revision ∷ [])
      ∷ ("target", text build.target ∷ [])
      ∷ ("profile", text build.profile ∷ [])
      ∷ ("features", begin_sequence ∷ write_texts build.features)
      ∷ ("toolchain", text build.toolchain ∷ [])
      ∷ [])

  unfoldable pub serialize_metric : MetricSpec → List (Call F Value)
  serialize_metric metric = write_struct (
      ("name", text metric.name ∷ [])
      ∷ ("unit", text (unit_name metric.unit) ∷ [])
      ∷ ("direction", text (direction_name metric.direction) ∷ [])
      ∷ [])

  unfoldable pub serialize_metrics : List MetricSpec → List (Call F Value)
  serialize_metrics [] = end ∷ []
  serialize_metrics (metric ∷ rest) = serialize_metric metric ++ serialize_metrics rest

  unfoldable pub serialize_plan : SamplingPlan → List (Call F Value)
  serialize_plan plan = write_struct (
      ("warmup_samples", number plan.warmup_samples ∷ [])
      ∷ ("measured_samples", number plan.measured_samples ∷ [])
      ∷ ("seed", number plan.seed ∷ [])
      ∷ [])

  unfoldable pub serialize_environment : EnvironmentRequirements → List (Call F Value)
  serialize_environment environment = write_struct (
      ("operating_system", write_option environment.operating_system)
      ∷ ("architecture", write_option environment.architecture)
      ∷ ("minimum_logical_cpus", number environment.minimum_logical_cpus ∷ [])
      ∷ ("minimum_memory_bytes", number environment.minimum_memory_bytes ∷ [])
      ∷ ("capabilities", begin_sequence ∷ write_texts environment.capabilities)
      ∷ ("network_isolation", boolean environment.network_isolation ∷ [])
      ∷ [])

module _ (f64 : F64) (Value : Type 0) where
  open f64 use {F}

  pub record WorkloadIdentity : Type 0 where
    pub name : String
    pub revision : String
    pub parameters : Map String Value

  pub record ComparisonPolicy : Type 0 where
    pub required_threshold : Option F
    pub noise_floor : F
    pub confidence_level : F

  -- `BenchSpecIdentity`: the fields that the key covers.
  pub record BenchSpecIdentity : Type 0 where
    pub schema_revision : ℕ
    pub workload : WorkloadIdentity
    pub build : BuildIdentity
    pub metrics : List MetricSpec
    pub sampling_plan : SamplingPlan
    pub comparison_policy : ComparisonPolicy
    pub environment : EnvironmentRequirements

  unfoldable pub serialize_workload : WorkloadIdentity → List (Call F Value)
  serialize_workload workload = write_struct (
      ("name", text workload.name ∷ [])
      ∷ ("revision", text workload.revision ∷ [])
      ∷ ("parameters", begin_map ∷ write_parameters workload.parameters)
      ∷ [])

  unfoldable pub serialize_threshold : Option F → List (Call F Value)
  serialize_threshold none = null ∷ []
  serialize_threshold (some threshold) = float threshold ∷ []

  unfoldable pub serialize_policy : ComparisonPolicy → List (Call F Value)
  serialize_policy policy = write_struct (
      ("required_threshold", serialize_threshold policy.required_threshold)
      ∷ ("noise_floor", float policy.noise_floor ∷ [])
      ∷ ("confidence_level", float policy.confidence_level ∷ [])
      ∷ [])

  unfoldable pub serialize_identity : BenchSpecIdentity → List (Call F Value)
  serialize_identity i = write_struct (
      ("schema_revision", number i.schema_revision ∷ [])
      ∷ ("workload", serialize_workload i.workload)
      ∷ ("build", serialize_build i.build)
      ∷ ("metrics", begin_sequence ∷ serialize_metrics i.metrics)
      ∷ ("sampling_plan", serialize_plan i.sampling_plan)
      ∷ ("comparison_policy", serialize_policy i.comparison_policy)
      ∷ ("environment", serialize_environment i.environment)
      ∷ [])
