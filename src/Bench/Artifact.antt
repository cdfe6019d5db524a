-- ===== src/Bench/Artifact.antt =====
-- bench.rs: `RawObservation`, `BenchSummary` and `BenchDecision`.
pub mod Constructors
use sim_tooling.Support.{
  ℕ, String, Bool, true, false, not, ◌||◌, ◌&&◌, ◌==◌, Option, none, some, List, [], ◌∷◌, Result,
  ok, err, ◌>>=◌, ◌>>◌, refuse_if, if◌then◌else◌,
}
use sim_tooling.Support.Text.{is_blank}
use sim_tooling.Bench.Float.{F64}
use sim_tooling.Bench.Serialize.{Call, begin_sequence, end, number, float, text}
use sim_tooling.Bench.Identity.{unit_name}
use sim_tooling.Bench.Content.{
  Codec, ArtifactError, must_not_be_empty, value_not_finite, no_samples, summary_not_admissible,
  change_not_finite, confidence_not_admissible, content_key,
}
use sim_tooling.Bench.Spec.{MetricUnit}

pub data DecisionOutcome : Type 0 where
  pass fail inconclusive : DecisionOutcome

-- The names of the variants in kebab case.
unfoldable pub outcome_name : DecisionOutcome → String
outcome_name pass = "pass"
outcome_name fail = "fail"
outcome_name inconclusive = "inconclusive"

module _ (f64 : F64) where
  open f64 use {F}

  pub record RawObservation : Type 0 where
    pub schema_revision : ℕ
    pub content_key : String
    pub spec_key : String
    pub sample_index : ℕ
    pub metric : String
    pub unit : MetricUnit
    pub value : F

  pub record BenchSummary : Type 0 where
    pub schema_revision : ℕ
    pub content_key : String
    pub spec_key : String
    pub metric : String
    pub unit : MetricUnit
    pub sample_count : ℕ
    pub mean : F
    pub median : F
    pub standard_deviation : F

  pub record BenchDecision : Type 0 where
    pub schema_revision : ℕ
    pub content_key : String
    pub candidate_summary_key : String
    pub baseline_summary_key : String
    pub relative_change : F
    pub confidence : F
    pub outcome : DecisionOutcome

  -- The tuples that the keys cover.
  unfoldable pub observation_identity : {Value : Type 0} → RawObservation → List (Call F Value)
  observation_identity o =
      begin_sequence
      ∷ number o.schema_revision
      ∷ text o.spec_key
      ∷ number o.sample_index
      ∷ text o.metric
      ∷ text (unit_name o.unit)
      ∷ float o.value
      ∷ end
      ∷ []

  unfoldable pub summary_identity : {Value : Type 0} → BenchSummary → List (Call F Value)
  summary_identity s =
      begin_sequence
      ∷ number s.schema_revision
      ∷ text s.spec_key
      ∷ text s.metric
      ∷ text (unit_name s.unit)
      ∷ number s.sample_count
      ∷ float s.mean
      ∷ float s.median
      ∷ float s.standard_deviation
      ∷ end
      ∷ []

  unfoldable pub decision_identity : {Value : Type 0} → BenchDecision → List (Call F Value)
  decision_identity d =
      begin_sequence
      ∷ number d.schema_revision
      ∷ text d.candidate_summary_key
      ∷ text d.baseline_summary_key
      ∷ float d.relative_change
      ∷ float d.confidence
      ∷ text (outcome_name d.outcome)
      ∷ end
      ∷ []

  module _ {Value : Type 0} (codec : Codec F Value) where
    -- `RawObservation::new`
    unfoldable pub new_observation :
        String → ℕ → String → MetricUnit → F → Result ArtifactError RawObservation
    new_observation spec_key sample_index metric unit value = do
      refuse_if (is_blank metric) (must_not_be_empty "metric")
      refuse_if (not (f64.is_finite value)) value_not_finite
      let observation : String → RawObservation = λ key. record {
        schema_revision = 1;
        content_key = key;
        spec_key = spec_key;
        sample_index = sample_index;
        metric = metric;
        unit = unit;
        value = value;
      }
      key ← content_key codec (observation_identity (observation ""))
      ok (observation key)

    -- `BenchSummary::new`
    unfoldable pub new_summary :
        String → String → MetricUnit → ℕ → F → F → F → Result ArtifactError BenchSummary
    new_summary spec_key metric unit sample_count mean median standard_deviation = do
      refuse_if (is_blank metric) (must_not_be_empty "metric")
      refuse_if (sample_count == 0) no_samples
      refuse_if
          (not (f64.is_finite mean)
            || (not (f64.is_finite median)
                || (not (f64.is_finite standard_deviation) || f64.lt standard_deviation f64.zero)))
          summary_not_admissible
      let summary : String → BenchSummary = λ key. record {
        schema_revision = 1;
        content_key = key;
        spec_key = spec_key;
        metric = metric;
        unit = unit;
        sample_count = sample_count;
        mean = mean;
        median = median;
        standard_deviation = standard_deviation;
      }
      key ← content_key codec (summary_identity (summary ""))
      ok (summary key)

    -- `BenchDecision::new`
    unfoldable pub new_decision :
        String → String → F → F → DecisionOutcome → Result ArtifactError BenchDecision
    new_decision candidate_summary_key baseline_summary_key relative_change confidence outcome = do
      refuse_if (not (f64.is_finite relative_change)) change_not_finite
      refuse_if
          (not (f64.is_finite confidence)
            || not (f64.le f64.zero confidence && f64.le confidence f64.one))
          confidence_not_admissible
      let decision : String → BenchDecision = λ key. record {
        schema_revision = 1;
        content_key = key;
        candidate_summary_key = candidate_summary_key;
        baseline_summary_key = baseline_summary_key;
        relative_change = relative_change;
        confidence = confidence;
        outcome = outcome;
      }
      key ← content_key codec (decision_identity (decision ""))
      ok (decision key)
