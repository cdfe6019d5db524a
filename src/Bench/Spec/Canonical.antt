-- ===== src/Bench/Spec/Canonical.antt =====
-- What the content key of a specification does not depend on.
use sim_tooling.Support.{
  String, ◌≡◌, refl, ap, sym, ◌∙◌, none, ◌>>◌, [], ◌∷◌, List, Option, Result, ok, err, text_order,
}
use sim_tooling.Support.Sets.{contains}
use sim_tooling.Support.Sorting.{dedup-sort_ext}
use sim_tooling.Bench.Float.{F64}
use sim_tooling.Bench.Content.{Codec, ArtifactError, content_key}
use sim_tooling.Bench.Identity.{serialize_identity}
use sim_tooling.Bench.Spec.{
  MetricSpec, SamplingPlan, BuildIdentity, EnvironmentRequirements, WorkloadIdentity,
  ComparisonPolicy, BenchSpec, identity, validate, sorted_build, sorted_environment, unkeyed, new,
  spec_errors, name_errors, policy_errors,
}

-- The same texts, in any order and any number.
abbrev pub SameTexts : List String → List String → Type 0
SameTexts xs ys = (a : String) → contains xs a ≡ contains ys a

pub record SameBuild (b c : BuildIdentity) : Type 0 where
  pub source_revision : b.source_revision ≡ c.source_revision
  pub target : b.target ≡ c.target
  pub profile : b.profile ≡ c.profile
  pub features : SameTexts b.features c.features
  pub toolchain : b.toolchain ≡ c.toolchain

pub record SameRequirements (b c : EnvironmentRequirements) : Type 0 where
  pub operating_system : b.operating_system ≡ c.operating_system
  pub architecture : b.architecture ≡ c.architecture
  pub minimum_logical_cpus : b.minimum_logical_cpus ≡ c.minimum_logical_cpus
  pub minimum_memory_bytes : b.minimum_memory_bytes ≡ c.minimum_memory_bytes
  pub capabilities : SameTexts b.capabilities c.capabilities
  pub network_isolation : b.network_isolation ≡ c.network_isolation

module _ (f64 : F64) (Value : Type 0) (codec : Codec f64.F Value) where
  abbrev pub key_of :
      Result (List ArtifactError) (BenchSpec f64 Value) → Result (List ArtifactError) String
  key_of r = elim r [ ok spec ↦ ok spec.content_key | err es ↦ err es ]

  sorted_build_ext :
      (b c : BuildIdentity)
      → SameBuild b c
      → sorted_build f64 Value codec b ≡ sorted_build f64 Value codec c
  unfolding sorted_build
  sorted_build_ext b c h = cc (
    h.source_revision,
    h.target,
    h.profile,
    dedup-sort_ext b.features c.features h.features,
    h.toolchain,
  )

  sorted_environment_ext :
      (b c : EnvironmentRequirements)
      → SameRequirements b c
      → sorted_environment f64 Value codec b ≡ sorted_environment f64 Value codec c
  unfolding sorted_environment
  sorted_environment_ext b c h = cc (
    h.operating_system,
    h.architecture,
    h.minimum_logical_cpus,
    h.minimum_memory_bytes,
    dedup-sort_ext b.capabilities c.capabilities h.capabilities,
    h.network_isolation,
  )

  -- The key under a validation that may refuse and an encoding that may fail.
  abbrev keyed :
      Result (List ArtifactError) (Unit {0})
      → Result ArtifactError String
      → Result (List ArtifactError) String
  keyed valid key = valid >> elim key [ ok k ↦ ok k | err e ↦ err (e ∷ []) ]

  key_of-chain :
      (valid : Result (List ArtifactError) (Unit {0})) (key : Result ArtifactError String)
      (spec : String → BenchSpec f64 Value)
      → ((k : String) → (spec k).content_key ≡ k)
      → key_of (valid >> elim key [ ok k ↦ ok (spec k) | err e ↦ err (e ∷ []) ]) ≡ keyed valid key
  key_of-chain (ok u) (ok k) spec h = ap ok (h k)
  key_of-chain (ok u) (err e) spec h = refl
  key_of-chain (err es) key spec h = refl

  -- The record that `new` validates, with its comment blanked.
  abbrev bare :
      WorkloadIdentity f64 Value
      → BuildIdentity
      → List MetricSpec
      → SamplingPlan
      → ComparisonPolicy f64 Value
      → EnvironmentRequirements
      → BenchSpec f64 Value
  bare workload build metrics plan policy environment = record {
    schema_revision = 1;
    content_key = "";
    workload = workload;
    build = build;
    metrics = metrics;
    sampling_plan = plan;
    comparison_policy = policy;
    environment = environment;
    comment = none;
  }

  key_of-new :
      (workload : WorkloadIdentity f64 Value) (b : BuildIdentity) (metrics : List MetricSpec)
      (plan : SamplingPlan) (policy : ComparisonPolicy f64 Value) (d : EnvironmentRequirements)
      (comment : Option String)
      → key_of (new f64 Value codec workload b metrics plan policy d comment) ≡ (
          let s =
            bare workload
              (sorted_build f64 Value codec b)
              metrics
              plan
              policy
              (sorted_environment f64 Value codec d) in
          keyed
            (validate f64 Value codec s)
            (content_key codec (serialize_identity f64 Value (identity f64 Value s))))
  unfolding new unkeyed validate identity spec_errors name_errors policy_errors
  key_of-new workload b metrics plan policy d comment =
      key_of-chain _ _ (unkeyed f64 Value codec workload b metrics plan policy d comment)
        (λ k. refl)

  -- The outcome of `new`, its key or its errors, is the same for two descriptions that list the
  -- same features and capabilities in other orders or repeatedly, whatever their comments.
  pub new_canonical :
      (workload : WorkloadIdentity f64 Value) (b c : BuildIdentity) (metrics : List MetricSpec)
      (plan : SamplingPlan) (policy : ComparisonPolicy f64 Value) (d e : EnvironmentRequirements)
      (comment other : Option String)
      → SameBuild b c
      → SameRequirements d e
      → key_of (new f64 Value codec workload b metrics plan policy d comment)
        ≡ key_of (new f64 Value codec workload c metrics plan policy e other)
  new_canonical workload b c metrics plan policy d e comment other same same' =
      key_of-new workload b metrics plan policy d comment
      ∙ (rw (sorted_build_ext b c same, sorted_environment_ext d e same') refl
          ∙ sym (key_of-new workload c metrics plan policy e other))
