-- ===== src/Bench/Compare.antt =====
-- bench/compare.rs: the robust comparison of two sample sets.
pub mod Pairs
pub mod Exclusion
pub mod Trace
pub mod Decision
use sim_tooling.Support.{
  ℕ, String, Bool, true, false, not, ◌&&◌, ◌||◌, ltb, Option, none, some, List, [], ◌∷◌, ◌++◌,
  length, Result, ok, err, ◌>>=◌, ◌>>◌, refuse_if, if◌then◌else◌,
}
use sim_tooling.Bench.Float.{F64, Stats, Interval}
use sim_tooling.Bench.Spec.{MetricDirection, lower_is_better, higher_is_better}
use sim_tooling.Bench.Artifact.{DecisionOutcome, pass, fail, inconclusive}
use sim_tooling.Bench.Env.{EnvironmentProbe, CompatibilityMismatch, compatibility_mismatches}
use sim_tooling.Bench.Env.Fields.{EnvironmentField}
use sim_tooling.Bench.Compare.Pairs.{ComparisonSample, AlignedPairs, aligned_pair_differences}
use sim_tooling.Bench.Compare.Exclusion.{
  SampleSide, baseline, candidate, CompareError, minimum_samples_below_two,
  dispersion_not_admissible, threshold_not_admissible, multiplier_not_admissible, stats,
  ExcludedSample, values, Split, exclude_outliers, validate_samples,
}

module _ (f64 : F64) where
  open f64 use {F}

  pub record RobustComparisonPolicy : Type 0 where
    pub minimum_samples : ℕ
    pub maximum_relative_dispersion : F
    pub outlier_mad_multiplier : Option F
    pub required_threshold : F
    pub confidence_level : F
    pub bootstrap_seed : ℕ
    pub bootstrap_resamples : ℕ
    pub bootstrap_max_work : ℕ

  pub record RobustSummary : Type 0 where
    pub sample_count : ℕ
    pub mean : F
    pub median : F
    pub sample_variance : F
    pub median_absolute_deviation : F
    pub relative_dispersion : F

  -- The reasons that `compare` collects, with what their texts show.
  pub data Reason : Type 0 where
    minimum_samples : SampleSide → ℕ → ℕ → Reason
    maximum_relative_dispersion : SampleSide → F → F → Reason
    environment_compatibility zero_reference_mean : Reason
    minimum_pairs : ℕ → ℕ → Reason

  pub record ComparisonReport : Type 0 where
    pub baseline : Option RobustSummary
    pub candidate : Option RobustSummary
    pub interleaved_effect : Option (Interval F)
    pub paired_effect : Option (Interval F)
    pub relative_regression : Option F
    pub excluded_samples : List (ExcludedSample f64)
    pub environment_mismatches : List CompatibilityMismatch
    pub inconclusive_reasons : List Reason
    pub outcome : DecisionOutcome

  -- `!value.is_finite() || value < 0.0`
  abbrev inadmissible : F → Bool
  inadmissible value = not (f64.is_finite value) || f64.lt value f64.zero

  -- `!value.is_finite() || value <= 0.0`
  abbrev not_positive : F → Bool
  not_positive value = not (f64.is_finite value) || (f64.lt value f64.zero || f64.eq value f64.zero)

  unfoldable pub validate_policy : RobustComparisonPolicy → Result CompareError (Unit {0})
  validate_policy p = do
    refuse_if (ltb p.minimum_samples 2) minimum_samples_below_two
    refuse_if (inadmissible p.maximum_relative_dispersion) dispersion_not_admissible
    refuse_if (inadmissible p.required_threshold) threshold_not_admissible
    refuse_if (elim p.outlier_mad_multiplier [ none ↦ false | some value ↦ not_positive value ])
        multiplier_not_admissible

  -- The reasons, in the order in which `compare` adds them.
  abbrev pub reason_if : Bool → Reason → List Reason
  reason_if b r = if b then r ∷ [] else []

  unfoldable pub sample_reason :
      SampleSide → RobustComparisonPolicy → List (ComparisonSample F) → List Reason
  sample_reason side p samples =
      reason_if (ltb (length samples) p.minimum_samples)
        (minimum_samples side (length samples) p.minimum_samples)

  unfoldable pub dispersion_reason :
      SampleSide → RobustComparisonPolicy → Option RobustSummary → List Reason
  dispersion_reason side p none = []
  dispersion_reason side p (some summary) =
      reason_if (f64.lt p.maximum_relative_dispersion summary.relative_dispersion)
        (maximum_relative_dispersion side summary.relative_dispersion p.maximum_relative_dispersion)

  unfoldable pub environment_reason : List CompatibilityMismatch → List Reason
  environment_reason [] = []
  environment_reason (m ∷ ms) = environment_compatibility ∷ []

  unfoldable pub pair_reason : RobustComparisonPolicy → List (ComparisonSample F) → List Reason
  pair_reason p pairs =
      reason_if (ltb (length pairs) p.minimum_samples)
        (minimum_pairs (length pairs) p.minimum_samples)

  -- The regression, and the reason that stands in its place.
  unfoldable pub regression :
      MetricDirection → Option RobustSummary → Option RobustSummary → Option F × List Reason
  regression direction none c = (none, [])
  regression direction (some b) none = (none, [])
  regression lower_is_better (some b) (some c) =
      if f64.eq b.mean f64.zero
      then (none, zero_reference_mean ∷ [])
      else (some (f64.sub (f64.div c.mean b.mean) f64.one), [])
  regression higher_is_better (some b) (some c) =
      if f64.eq c.mean f64.zero
      then (none, zero_reference_mean ∷ [])
      else (some (f64.sub (f64.div b.mean c.mean) f64.one), [])

  unfoldable pub decide : List Reason → Option F → F → DecisionOutcome
  decide (r ∷ rs) effect threshold = inconclusive
  decide [] none threshold = pass
  decide [] (some effect) threshold = if f64.lt threshold effect then fail else pass

  -- The reasons and the report that `compare` builds from what it computed.
  unfoldable pub assemble :
      MetricDirection
      → RobustComparisonPolicy
      → List CompatibilityMismatch
      → Split f64
      → Split f64
      → Option RobustSummary
      → Option RobustSummary
      → Option (Interval F)
      → Option (Interval F)
      → ComparisonReport
  assemble direction policy mismatches b c b_summary c_summary interleaved paired =
      let pairs = aligned_pair_differences f64 b.retained c.retained in
      let regressed = regression direction b_summary c_summary in
      let reasons =
        sample_reason baseline policy b.retained
        ++ (sample_reason candidate policy c.retained
            ++ (dispersion_reason baseline policy b_summary
                ++ (dispersion_reason candidate policy c_summary
                    ++ (environment_reason mismatches
                        ++ (pair_reason policy pairs.zero ++ regressed.1))))) in
      record {
        baseline = b_summary;
        candidate = c_summary;
        interleaved_effect = interleaved;
        paired_effect = paired;
        relative_regression = regressed.0;
        excluded_samples = b.excluded ++ c.excluded;
        environment_mismatches = mismatches;
        inconclusive_reasons = reasons;
        outcome = decide reasons regressed.0 policy.required_threshold;
      }

  module _ (external : Stats f64) where
    unfoldable pub summarize :
        List (ComparisonSample F) → Result CompareError (Option RobustSummary)
    summarize samples =
        let zero_median = λ (mad : F). if f64.eq mad f64.zero then f64.zero else f64.infinity in
        let summary : Result CompareError (Option RobustSummary) = (do
          mean ← stats (external.mean (values f64 samples))
          median ← stats (external.exact_quantile (values f64 samples) f64.half)
          variance ← stats (external.sample_variance (values f64 samples))
          mad ← stats (external.median_absolute_deviation (values f64 samples))
          ok (
              some (record {
                sample_count = length (values f64 samples);
                mean = mean;
                median = median;
                sample_variance = variance;
                median_absolute_deviation = mad;
                relative_dispersion =
                    if f64.eq median f64.zero
                    then zero_median mad
                    else f64.div mad (f64.abs median);
              }))) in
        if ltb (length samples) 2 then ok none else summary

    unfoldable pub effect :
        List (ComparisonSample F)
        → List (ComparisonSample F)
        → external.Control
        → Result CompareError (Option (Interval F))
    effect [] cs control = ok none
    effect (b ∷ bs) [] control = ok none
    effect (b ∷ bs) (c ∷ cs) control = do
      interval ← stats (external.bootstrap (values f64 (b ∷ bs)) (values f64 (c ∷ cs)) control)
      ok (some interval)

    unfoldable pub compare :
        List (ComparisonSample F)
        → List (ComparisonSample F)
        → MetricDirection
        → RobustComparisonPolicy
        → List EnvironmentField
        → EnvironmentProbe
        → EnvironmentProbe
        → Result CompareError ComparisonReport
    compare bs cs direction policy environment_policy baseline_env candidate_env = do
      validate_policy policy
      validate_samples f64 baseline bs
      validate_samples f64 candidate cs
      let mismatches = compatibility_mismatches environment_policy baseline_env candidate_env
      b ← exclude_outliers f64 external baseline bs policy.outlier_mad_multiplier
      c ← exclude_outliers f64 external candidate cs policy.outlier_mad_multiplier
      b_summary ← summarize b.retained
      c_summary ← summarize c.retained
      control ← stats (
          external.control policy.bootstrap_seed policy.bootstrap_resamples policy.confidence_level
            policy.bootstrap_max_work)
      interleaved ← effect b.retained c.retained control
      let pairs = aligned_pair_differences f64 b.retained c.retained
      paired ← effect pairs.zero pairs.differences control
      ok (assemble direction policy mismatches b c b_summary c_summary interleaved paired)
