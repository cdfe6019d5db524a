-- ===== src/Tests/Comparisons.antt =====
-- Runs of the comparison of two sample sets.
use sim_tooling.Support.{
  ℕ, ◌≡◌, ◌≢◌, ◌⊎◌, ◌↔◌, ◌-◌, refl, none, some, List, [], ◌∷◌, All, ok, arith,
}
use sim_tooling.Bench.Env.{compatibility_mismatches, compare_field}
use sim_tooling.Bench.Compare.Pairs.{ComparisonSample, aligned_pair_differences}
use sim_tooling.Bench.Compare.Pairs.Join.{
  IsIncreasing, value_at, indices, both, aligned_pair_differences-join,
}
use sim_tooling.Bench.Compare.Exclusion.{
  baseline, Split, exclude_outliers, validate_samples, values,
}
use sim_tooling.Bench.Compare.Exclusion.Partition.{
  Finite, Explains, validate_samples_iff, exclude_outliers_lem,
}
use sim_tooling.Bench.Compare.{
  RobustComparisonPolicy, ComparisonReport, compare, validate_policy, summarize, effect, assemble,
  sample_reason, dispersion_reason, environment_reason, pair_reason, regression, decide,
}
use sim_tooling.Bench.Env.Fields.{host_inventory_id}
use sim_tooling.Bench.Compare.Decision.{IsConclusive, compare_outcome}
use sim_tooling.Tests.Numbers.{counting, middling}
use sim_tooling.Tests.Environments.{probed}
use sim_tooling.Bench.Spec.{lower_is_better}
use sim_tooling.Bench.Artifact.{fail, inconclusive}

abbrev sample : ℕ → ℕ → ComparisonSample ℕ
sample i v = record { sample_index = i; value = v }

abbrev before : List (ComparisonSample ℕ)
before = sample 0 10 ∷ sample 1 11 ∷ sample 3 10 ∷ []

abbrev after : List (ComparisonSample ℕ)
after = sample 1 30 ∷ sample 2 31 ∷ sample 3 32 ∷ []

before-IsIncreasing : IsIncreasing before
before-IsIncreasing = ((omega arith, (omega arith, tt)), ((omega arith, tt), (tt, tt)))

after-IsIncreasing : IsIncreasing after
after-IsIncreasing = ((omega arith, (omega arith, tt)), ((omega arith, tt), (tt, tt)))

aligned_pair_differences_example :
    IsIncreasing (aligned_pair_differences counting before after).differences
    × ((i : ℕ)
        → value_at (aligned_pair_differences counting before after).differences i
          ≡ both (λ x y. y - x) (value_at before i) (value_at after i))
    × (indices (aligned_pair_differences counting before after).zero
        ≡ indices (aligned_pair_differences counting before after).differences)
    × All (λ s. s.value ≡ 0) (aligned_pair_differences counting before after).zero
aligned_pair_differences_example =
    aligned_pair_differences-join counting before after before-IsIncreasing after-IsIncreasing

validate_samples_example :
    (validate_samples counting baseline before ≡ ok tt)
    ↔ (Finite counting before × IsIncreasing before)
validate_samples_example = validate_samples_iff counting baseline before

abbrev one_dropped : Split counting
one_dropped = record {
  retained = sample 0 10 ∷ sample 1 11 ∷ [];
  excluded =
      record {
        side = baseline;
        sample_index = 2;
        value = 90;
        deviation = 79;
        multiplier = 3;
        mad = 1;
        limit = 3;
      }
      ∷ [];
}

exclude_outliers_example :
    Explains counting middling baseline
      (sample 0 10 ∷ sample 1 11 ∷ sample 2 90 ∷ [])
      (some 3)
      one_dropped
unfolding exclude_outliers values
exclude_outliers_example =
    exclude_outliers_lem counting middling baseline (sample 0 10 ∷ sample 1 11 ∷ sample 2 90 ∷ [])
      (some 3) one_dropped refl

abbrev policy : RobustComparisonPolicy counting
policy = record {
  minimum_samples = 2;
  maximum_relative_dispersion = 1;
  outlier_mad_multiplier = none;
  required_threshold = 1;
  confidence_level = 1;
  bootstrap_seed = 7;
  bootstrap_resamples = 10;
  bootstrap_max_work = 100;
}

abbrev report : ComparisonReport counting
report = record {
  baseline = some (record {
    sample_count = 3;
    mean = 10;
    median = 11;
    sample_variance = 1;
    median_absolute_deviation = 1;
    relative_dispersion = 0;
  });
  candidate = some (record {
    sample_count = 3;
    mean = 31;
    median = 31;
    sample_variance = 1;
    median_absolute_deviation = 1;
    relative_dispersion = 0;
  });
  interleaved_effect =
      some (record { point_effect = 62; lower = 0; upper = 1; confidence_level = 1 });
  paired_effect = some (record { point_effect = 41; lower = 0; upper = 1; confidence_level = 1 });
  relative_regression = some 2;
  excluded_samples = [];
  environment_mismatches = [];
  inconclusive_reasons = [];
  outcome = fail;
}

report_returned :
    compare counting middling before after lower_is_better policy
      (host_inventory_id ∷ [])
      (probed 4)
      (probed 8)
    ≡ ok report
unfolding compare validate_policy validate_samples exclude_outliers values summarize effect
    aligned_pair_differences compatibility_mismatches compare_field assemble sample_reason
    dispersion_reason environment_reason pair_reason regression decide
report_returned = refl

compare_outcome_example :
    ((report.inconclusive_reasons ≢ []) × (report.outcome ≡ inconclusive))
    ⊎ ((report.inconclusive_reasons ≡ [])
        × IsConclusive counting middling lower_is_better policy report)
compare_outcome_example =
    compare_outcome counting middling before after lower_is_better policy (host_inventory_id ∷ [])
      (probed 4) (probed 8) report report_returned
