-- ===== src/Bench/Compare/Exclusion.antt =====
-- bench/compare.rs: `validate_samples` and `exclude_outliers`.
pub mod Partition
use sim_tooling.Support.{
  ℕ, suc, String, Bool, true, false, Option, none, some, List, [], ◌∷◌, ltb, leb, Result, ok, err,
  ◌>>=◌, ◌>>◌, refuse_if, if◌then◌else◌, not,
}
use sim_tooling.Bench.Float.{F64, Stats}
use sim_tooling.Bench.Compare.Pairs.{ComparisonSample}

pub data SampleSide : Type 0 where
  baseline candidate : SampleSide

-- The errors of `compare`; `statistics` carries the message of a statistics call.
pub data CompareError : Type 0 where
  minimum_samples_below_two dispersion_not_admissible threshold_not_admissible : CompareError
  multiplier_not_admissible : CompareError
  not_finite : SampleSide → ℕ → CompareError
  indices_not_increasing : SampleSide → CompareError
  statistics : String → CompareError

-- `map_err(|error| error.to_string())`
abbrev pub stats {ℓ} : {A : Type ℓ} → Result String A → Result CompareError A
stats (ok a) = ok a
stats (err e) = err (statistics e)

module _ (f64 : F64) where
  open f64 use {F}

  -- The loop at `position`; `previous` is the index of the sample before.
  validate_from :
      SampleSide → ℕ → Option ℕ → List (ComparisonSample F) → Result CompareError (Unit {0})
  validate_from name position previous [] = ok tt
  validate_from name position previous (sample ∷ rest) = do
    refuse_if (not (f64.is_finite sample.value)) (not_finite name position)
    refuse_if (elim previous [ none ↦ false | some index ↦ leb sample.sample_index index ])
        (indices_not_increasing name)
    validate_from name (suc position) (some sample.sample_index) rest

  unfoldable pub validate_samples :
      SampleSide → List (ComparisonSample F) → Result CompareError (Unit {0})
  unfolding validate_from
  validate_samples name samples = validate_from name 0 none samples

  -- The record keeps what the formatted reason shows.
  pub record ExcludedSample : Type 0 where
    pub side : SampleSide
    pub sample_index : ℕ
    pub value : F
    pub deviation : F
    pub multiplier : F
    pub mad : F
    pub limit : F

  unfoldable pub values : List (ComparisonSample F) → List F
  values [] = []
  values (s ∷ ss) = s.value ∷ values ss

  pub record Split : Type 0 where
    pub retained : List (ComparisonSample F)
    pub excluded : List ExcludedSample

  pub deviation : F → ComparisonSample F → F
  deviation median sample = f64.abs (f64.sub sample.value median)

  -- The loop over the samples.
  pub split_samples : SampleSide → F → F → F → List (ComparisonSample F) → Split
  unfolding deviation
  split_samples side multiplier median mad [] = record { retained = []; excluded = [] }
  split_samples side multiplier median mad (sample ∷ rest) =
      let limit = f64.mul multiplier mad in
      let later = split_samples side multiplier median mad rest in
      if f64.lt limit (deviation median sample)
      then (record {
        retained = later.retained;
        excluded =
            record {
              side = side;
              sample_index = sample.sample_index;
              value = sample.value;
              deviation = deviation median sample;
              multiplier = multiplier;
              mad = mad;
              limit = limit;
            }
            ∷ later.excluded;
      })
      else (record { retained = sample ∷ later.retained; excluded = later.excluded })

  module _ (external : Stats f64) where
    unfoldable pub exclude_outliers :
        SampleSide → List (ComparisonSample F) → Option F → Result CompareError Split
    unfolding split_samples
    exclude_outliers side samples none = ok (record { retained = samples; excluded = [] })
    exclude_outliers side [] (some multiplier) = ok (record { retained = []; excluded = [] })
    exclude_outliers side (s ∷ ss) (some multiplier) = do
      median ← stats (external.exact_quantile (values (s ∷ ss)) f64.half)
      mad ← stats (external.median_absolute_deviation (values (s ∷ ss)))
      ok (split_samples side multiplier median mad (s ∷ ss))
