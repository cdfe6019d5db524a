-- ===== src/Tests/Specifications.antt =====
-- Runs of the constructors of the specification and the artifacts.
use Prim.Native.String.{len}
use sim_tooling.Support.{
  ℕ, ◌+◌, ◌*◌, if◌then◌else◌, map, String, ◌≡◌, ◌↔◌, refl, true, none, some, List, [], ◌∷◌, ok,
  text_order, arith,
}
use sim_tooling.Support.Sets
use sim_tooling.Support.Sorting.{sort, dedup}
use sim_tooling.Support.Text.{is_blank}
use sim_tooling.Bench.Content.{Codec, content_key, required}
use sim_tooling.Bench.Spec.{
  BuildIdentity, EnvironmentRequirements, SamplingPlan, MetricSpec, WorkloadIdentity,
  ComparisonPolicy, BenchSpec, nanoseconds, lower_is_better, new, unkeyed, validate, identity,
  sorted_build, sorted_environment, spec_errors, name_errors, policy_errors, metric_errors,
  threshold_errors,
}
use sim_tooling.Bench.Spec.Admissible.{IsAdmissible, validate-IsAdmissible}
use sim_tooling.Bench.Spec.Built.{IsBuilt, new_iff}
use sim_tooling.Bench.Identity.{serialize_identity}
use sim_tooling.Bench.Serialize.{
  Call, null, begin_struct, begin_map, begin_sequence, end, boolean, text, key, json, number, float,
}
use sim_tooling.Bench.Identity.Injective.{serialize_identity-injective}
use sim_tooling.Bench.Spec.Canonical.{SameBuild, SameRequirements, key_of, new_canonical}
use sim_tooling.Bench.Artifact.{
  pass, RawObservation, BenchSummary, BenchDecision, new_observation, new_summary, new_decision,
  observation_identity, summary_identity, decision_identity,
}
use sim_tooling.Bench.Artifact.Constructors.{
  IsObservation, IsSummary, IsDecision, new_observation_iff, new_summary_iff, new_decision_iff,
}
use sim_tooling.Bench.Env.Evidence.{build_evidence, build_evidence_canonical}
use sim_tooling.Tests.Numbers.{percents}

-- One number for each call.
abbrev written : Call ℕ String → ℕ
written null = 0
written begin_struct = 1
written begin_map = 2
written begin_sequence = 3
written end = 4
written (boolean b) = if b then 5 else 6
written (text s) = 100 + len s
written (key s) = 200 + len s
written (json s) = 300 + len s
written (number n) = 400 + 2 * n
written (float n) = 401 + 2 * n

abbrev pub plain : Codec ℕ String
plain = record {
  to_vec = λ calls. ok (map written calls);
  content_digest = λ bytes. elim bytes [ [] ↦ "d0" | _ ∷ _ ↦ "d1" ];
}

abbrev pub built : List String → BuildIdentity
built features = record {
  source_revision = "abc";
  target = "x86_64-unknown-linux-gnu";
  profile = "release";
  features = features;
  toolchain = "stable";
}

abbrev pub needed : List String → EnvironmentRequirements
needed capabilities = record {
  operating_system = some "linux";
  architecture = none;
  minimum_logical_cpus = 1;
  minimum_memory_bytes = 1024;
  capabilities = capabilities;
  network_isolation = true;
}

abbrev pub parsing : WorkloadIdentity percents String
parsing = record { name = "parse-tree"; revision = "1"; parameters = [] }

abbrev pub latency : List MetricSpec
latency = record { name = "latency"; unit = nanoseconds; direction = lower_is_better } ∷ []

abbrev pub short_plan : SamplingPlan
short_plan = record { warmup_samples = 1; measured_samples = 1; seed = 7 }

abbrev pub scaled : ComparisonPolicy percents String
scaled = record { required_threshold = some 5; noise_floor = 1; confidence_level = 95 }

abbrev pub spec : BenchSpec percents String
spec = record {
  schema_revision = 1;
  content_key = "sha256:d1";
  workload = parsing;
  build = built ("a" ∷ "z" ∷ []);
  metrics = latency;
  sampling_plan = short_plan;
  comparison_policy = scaled;
  environment = needed ("timer" ∷ []);
  comment = none;
}

validate-IsAdmissible_example :
    (validate percents String plain spec ≡ ok tt) ↔ IsAdmissible percents String plain spec
validate-IsAdmissible_example = validate-IsAdmissible percents String plain spec

spec_returned :
    new percents String plain parsing
      (built ("z" ∷ "a" ∷ "z" ∷ []))
      latency
      short_plan
      scaled
      (needed ("timer" ∷ []))
      none
    ≡ ok spec
unfolding new unkeyed validate identity sorted_build sorted_environment spec_errors name_errors
    policy_errors metric_errors threshold_errors required content_key serialize_identity is_blank
    sort dedup
spec_returned = refl

new_iff_example :
    (new percents String plain parsing
        (built ("z" ∷ "a" ∷ "z" ∷ []))
        latency
        short_plan
        scaled
        (needed ("timer" ∷ []))
        none
      ≡ ok spec)
    ↔ IsBuilt percents String plain parsing
        (built ("z" ∷ "a" ∷ "z" ∷ []))
        latency
        short_plan
        scaled
        (needed ("timer" ∷ []))
        none
        spec
new_iff_example =
    new_iff percents String plain parsing (built ("z" ∷ "a" ∷ "z" ∷ [])) latency short_plan scaled
      (needed ("timer" ∷ [])) none spec

same_features : SameBuild (built ("z" ∷ "a" ∷ "z" ∷ [])) (built ("a" ∷ "z" ∷ []))
same_features = record {
  source_revision = refl;
  target = refl;
  profile = refl;
  features = λ a. ground (
    arith,
    Sets.contains-cons "z" ("a" ∷ "z" ∷ []) a,
    Sets.contains-cons "a" ("z" ∷ []) a,
    Sets.contains-cons "z" [] a,
  );
  toolchain = refl;
}

same_requirements : SameRequirements (needed ("timer" ∷ [])) (needed ("timer" ∷ []))
same_requirements = record {
  operating_system = refl;
  architecture = refl;
  minimum_logical_cpus = refl;
  minimum_memory_bytes = refl;
  capabilities = λ a. refl;
  network_isolation = refl;
}

new_canonical_example :
    key_of percents String plain (
      new percents String plain parsing
        (built ("z" ∷ "a" ∷ "z" ∷ []))
        latency
        short_plan
        scaled
        (needed ("timer" ∷ []))
        (some "first"))
    ≡ key_of percents String plain (
        new percents String plain parsing
          (built ("a" ∷ "z" ∷ []))
          latency
          short_plan
          scaled
          (needed ("timer" ∷ []))
          none)
new_canonical_example =
    new_canonical percents String plain parsing (built ("z" ∷ "a" ∷ "z" ∷ []))
      (built ("a" ∷ "z" ∷ [])) latency short_plan scaled (needed ("timer" ∷ []))
      (needed ("timer" ∷ [])) (some "first") none same_features same_requirements

build_evidence_canonical_example :
    build_evidence (built ("z" ∷ "a" ∷ "z" ∷ [])) ≡ build_evidence (built ("a" ∷ "z" ∷ []))
build_evidence_canonical_example =
    build_evidence_canonical (built ("z" ∷ "a" ∷ "z" ∷ [])) (built ("a" ∷ "z" ∷ [])) same_features

-- The same specification with another key and a comment.
abbrev annotated : BenchSpec percents String
annotated = record {
  schema_revision = 1;
  content_key = "";
  workload = parsing;
  build = built ("a" ∷ "z" ∷ []);
  metrics = latency;
  sampling_plan = short_plan;
  comparison_policy = scaled;
  environment = needed ("timer" ∷ []);
  comment = some "annotated";
}

serialize_identity-injective_example :
    identity percents String spec ≡ identity percents String annotated
unfolding identity
serialize_identity-injective_example =
    serialize_identity-injective percents String (identity percents String spec)
      (identity percents String annotated) refl

abbrev observation : RawObservation percents
observation = record {
  schema_revision = 1;
  content_key = "sha256:d1";
  spec_key = "sha256:s";
  sample_index = 0;
  metric = "latency";
  unit = nanoseconds;
  value = 12;
}

observed : new_observation percents plain "sha256:s" 0 "latency" nanoseconds 12 ≡ ok observation
unfolding new_observation observation_identity content_key is_blank
observed = refl

new_observation_iff_example :
    (new_observation percents plain "sha256:s" 0 "latency" nanoseconds 12 ≡ ok observation)
    ↔ IsObservation percents plain "sha256:s" 0 "latency" nanoseconds 12 observation
new_observation_iff_example =
    new_observation_iff percents plain "sha256:s" 0 "latency" nanoseconds 12 observation

abbrev summary : BenchSummary percents
summary = record {
  schema_revision = 1;
  content_key = "sha256:d1";
  spec_key = "sha256:s";
  metric = "latency";
  unit = nanoseconds;
  sample_count = 3;
  mean = 12;
  median = 11;
  standard_deviation = 1;
}

summarized : new_summary percents plain "sha256:s" "latency" nanoseconds 3 12 11 1 ≡ ok summary
unfolding new_summary summary_identity content_key is_blank
summarized = refl

new_summary_iff_example :
    (new_summary percents plain "sha256:s" "latency" nanoseconds 3 12 11 1 ≡ ok summary)
    ↔ IsSummary percents plain "sha256:s" "latency" nanoseconds 3 12 11 1 summary
new_summary_iff_example =
    new_summary_iff percents plain "sha256:s" "latency" nanoseconds 3 12 11 1 summary

abbrev decision : BenchDecision percents
decision = record {
  schema_revision = 1;
  content_key = "sha256:d1";
  candidate_summary_key = "sha256:c";
  baseline_summary_key = "sha256:b";
  relative_change = 0;
  confidence = 1;
  outcome = pass;
}

decided : new_decision percents plain "sha256:c" "sha256:b" 0 1 pass ≡ ok decision
unfolding new_decision decision_identity content_key
decided = refl

new_decision_iff_example :
    (new_decision percents plain "sha256:c" "sha256:b" 0 1 pass ≡ ok decision)
    ↔ IsDecision percents plain "sha256:c" "sha256:b" 0 1 pass decision
new_decision_iff_example = new_decision_iff percents plain "sha256:c" "sha256:b" 0 1 pass decision
