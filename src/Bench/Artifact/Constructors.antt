-- ===== src/Bench/Artifact/Constructors.antt =====
-- What the constructed artifacts satisfy.
use sim_tooling.Support.{
  ◌↔◌, ap, sym, ℕ, String, ◌≡◌, ◌<◌, refl, true, false, not, ◌||◌, ◌&&◌, ◌==◌, [], ◌∷◌, ok,
  refuse_if, refuse_if-ok, arith, >>=-ok-elim, ok-inj, subst,
}
use sim_tooling.Support.Text.{is_blank}
use sim_tooling.Bench.Float.{F64}
use sim_tooling.Bench.Serialize.{begin_sequence, end, number, float, text}
use sim_tooling.Bench.Content.{Codec, content_key}
use sim_tooling.Bench.Spec.{MetricUnit}
use sim_tooling.Bench.Identity.{unit_name}
use sim_tooling.Bench.Artifact.{
  RawObservation, BenchSummary, BenchDecision, DecisionOutcome, outcome_name, new_observation,
  new_summary, new_decision, observation_identity, summary_identity, decision_identity,
}

module _ (f64 : F64) {Value : Type 0} (codec : Codec f64.F Value) where
  open f64 use {F}

  -- The record of these fields, which are in order, with the key of all of them.
  abbrev pub IsObservation : String → ℕ → String → MetricUnit → F → RawObservation f64 → Type 0
  IsObservation spec_key sample_index metric unit value o =
      (is_blank metric ≡ false)
      × (f64.is_finite value ≡ true)
      × (content_key codec (
            begin_sequence
            ∷ number 1
            ∷ text spec_key
            ∷ number sample_index
            ∷ text metric
            ∷ text (unit_name unit)
            ∷ float value
            ∷ end
            ∷ [])
          ≡ ok o.content_key)
      × (◌≡◌ {A = RawObservation f64} o (record {
        schema_revision = 1;
        content_key = o.content_key;
        spec_key = spec_key;
        sample_index = sample_index;
        metric = metric;
        unit = unit;
        value = value;
      }))

  abbrev pub IsSummary : String → String → MetricUnit → ℕ → F → F → F → BenchSummary f64 → Type 0
  IsSummary spec_key metric unit sample_count mean median standard_deviation s =
      (is_blank metric ≡ false)
      × (0 < sample_count)
      × (f64.is_finite mean ≡ true)
      × (f64.is_finite median ≡ true)
      × (f64.is_finite standard_deviation ≡ true)
      × (f64.lt standard_deviation f64.zero ≡ false)
      × (content_key codec (
            begin_sequence
            ∷ number 1
            ∷ text spec_key
            ∷ text metric
            ∷ text (unit_name unit)
            ∷ number sample_count
            ∷ float mean
            ∷ float median
            ∷ float standard_deviation
            ∷ end
            ∷ [])
          ≡ ok s.content_key)
      × (◌≡◌ {A = BenchSummary f64} s (record {
        schema_revision = 1;
        content_key = s.content_key;
        spec_key = spec_key;
        metric = metric;
        unit = unit;
        sample_count = sample_count;
        mean = mean;
        median = median;
        standard_deviation = standard_deviation;
      }))

  abbrev pub IsDecision : String → String → F → F → DecisionOutcome → BenchDecision f64 → Type 0
  IsDecision candidate_summary_key baseline_summary_key relative_change confidence outcome d =
      (f64.is_finite relative_change ≡ true)
      × (f64.is_finite confidence ≡ true)
      × (f64.le f64.zero confidence ≡ true)
      × (f64.le confidence f64.one ≡ true)
      × (content_key codec (
            begin_sequence
            ∷ number 1
            ∷ text candidate_summary_key
            ∷ text baseline_summary_key
            ∷ float relative_change
            ∷ float confidence
            ∷ text (outcome_name outcome)
            ∷ end
            ∷ [])
          ≡ ok d.content_key)
      × (◌≡◌ {A = BenchDecision f64} d (record {
        schema_revision = 1;
        content_key = d.content_key;
        candidate_summary_key = candidate_summary_key;
        baseline_summary_key = baseline_summary_key;
        relative_change = relative_change;
        confidence = confidence;
        outcome = outcome;
      }))

  pub new_observation-IsObservation :
      (spec_key : String) (sample_index : ℕ) (metric : String) (unit : MetricUnit) (value : F)
      (o : RawObservation f64)
      → new_observation f64 codec spec_key sample_index metric unit value ≡ ok o
      → IsObservation spec_key sample_index metric unit value o
  unfolding new_observation observation_identity
  new_observation-IsObservation spec_key sample_index metric unit value o h =
      >>=-ok-elim (refuse_if (is_blank metric) _) _ h λ _ named h₁.
        >>=-ok-elim (refuse_if (not (f64.is_finite value)) _) _ h₁ λ _ finite h₂.
          >>=-ok-elim (content_key codec _) _ h₂ λ key keyed h₃.
            subst (IsObservation spec_key sample_index metric unit value) (ok-inj h₃) (
              refuse_if-ok (is_blank metric) _ named,
              ground (arith, refuse_if-ok (not (f64.is_finite value)) _ finite),
              keyed,
              refl,
            )

  pub new_summary-IsSummary :
      (spec_key metric : String) (unit : MetricUnit) (sample_count : ℕ)
      (mean median standard_deviation : F) (s : BenchSummary f64)
      → new_summary f64 codec spec_key metric unit sample_count mean median standard_deviation
        ≡ ok s
      → IsSummary spec_key metric unit sample_count mean median standard_deviation s
  unfolding new_summary summary_identity
  new_summary-IsSummary spec_key metric unit sample_count mean median standard_deviation s h =
      let bad =
        not (f64.is_finite mean)
        || (not (f64.is_finite median)
            || (not (f64.is_finite standard_deviation) || f64.lt standard_deviation f64.zero)) in
      >>=-ok-elim (refuse_if (is_blank metric) _) _ h λ _ named h₁.
        >>=-ok-elim (refuse_if (sample_count == 0) _) _ h₁ λ _ counted h₂.
          >>=-ok-elim (refuse_if bad _) _ h₂ λ _ finite h₃.
            >>=-ok-elim (content_key codec _) _ h₃ λ key keyed h₄.
              let fair = refuse_if-ok bad _ finite in
              let counts : 0 < sample_count =
                ground (arith, refuse_if-ok (sample_count == 0) _ counted) in
              let mean_fair : f64.is_finite mean ≡ true = ground (arith, fair) in
              let median_fair : f64.is_finite median ≡ true = ground (arith, fair) in
              let deviation_fair : f64.is_finite standard_deviation ≡ true = ground (arith, fair) in
              let not_negative : f64.lt standard_deviation f64.zero ≡ false =
                ground (arith, fair) in
              subst (IsSummary spec_key metric unit sample_count mean median standard_deviation)
                (ok-inj h₄)
                (
                  refuse_if-ok (is_blank metric) _ named,
                  counts,
                  mean_fair,
                  median_fair,
                  deviation_fair,
                  not_negative,
                  keyed,
                  refl,
                )

  pub new_decision-IsDecision :
      (candidate_summary_key baseline_summary_key : String) (relative_change confidence : F)
      (outcome : DecisionOutcome) (d : BenchDecision f64)
      → new_decision f64 codec candidate_summary_key baseline_summary_key relative_change confidence
          outcome
        ≡ ok d
      → IsDecision candidate_summary_key baseline_summary_key relative_change confidence outcome d
  unfolding new_decision decision_identity
  new_decision-IsDecision candidate_summary_key baseline_summary_key relative_change confidence
        outcome d h =
      let bad =
        not (f64.is_finite confidence)
        || not (f64.le f64.zero confidence && f64.le confidence f64.one) in
      >>=-ok-elim (refuse_if (not (f64.is_finite relative_change)) _) _ h λ _ finite h₁.
        >>=-ok-elim (refuse_if bad _) _ h₁ λ _ bounded h₂.
          >>=-ok-elim (content_key codec _) _ h₂ λ key keyed h₃.
            let fair = refuse_if-ok bad _ bounded in
            let change_fair : f64.is_finite relative_change ≡ true =
              ground (arith, refuse_if-ok (not (f64.is_finite relative_change)) _ finite) in
            let confidence_fair : f64.is_finite confidence ≡ true = ground (arith, fair) in
            let above : f64.le f64.zero confidence ≡ true = ground (arith, fair) in
            let below : f64.le confidence f64.one ≡ true = ground (arith, fair) in
            subst
              (IsDecision candidate_summary_key baseline_summary_key relative_change confidence
                outcome)
              (ok-inj h₃) (change_fair, confidence_fair, above, below, keyed, refl)

  -- `RawObservation::new` returns an observation exactly when its metric is not blank, its value is
  -- finite and its fields are encoded; it holds the given fields, and the key of the sequence of its
  -- revision, specification, index, metric, unit and value.
  pub new_observation_iff :
      (spec_key : String) (sample_index : ℕ) (metric : String) (unit : MetricUnit) (value : F)
      (o : RawObservation f64)
      → (new_observation f64 codec spec_key sample_index metric unit value ≡ ok o)
        ↔ IsObservation spec_key sample_index metric unit value o
  unfolding new_observation observation_identity
  new_observation_iff spec_key sample_index metric unit value o = (
    new_observation-IsObservation spec_key sample_index metric unit value o,
    λ (named, finite, keyed, e). rw (named, finite, keyed) (ap ok (sym e)),
  )

  -- `BenchSummary::new` returns a summary exactly when its metric is not blank, it represents at
  -- least one sample, its values are finite, its deviation is not negative and its fields are
  -- encoded; it holds the given fields, and the key of the sequence of its revision, specification,
  -- metric, unit, count, mean, median and deviation.
  pub new_summary_iff :
      (spec_key metric : String) (unit : MetricUnit) (sample_count : ℕ)
      (mean median standard_deviation : F) (s : BenchSummary f64)
      → (new_summary f64 codec spec_key metric unit sample_count mean median standard_deviation
          ≡ ok s)
        ↔ IsSummary spec_key metric unit sample_count mean median standard_deviation s
  unfolding new_summary summary_identity
  new_summary_iff spec_key metric unit sample_count mean median standard_deviation s = (
    new_summary-IsSummary spec_key metric unit sample_count mean median standard_deviation s,
    λ (named, counted, m, n, d, above, keyed, e).
        let counts : (sample_count == 0) ≡ false = ground arith in
        rw (named, counts, m, n, d, above, keyed) (ap ok (sym e)),
  )

  -- `BenchDecision::new` returns a decision exactly when its change is finite, its confidence is
  -- finite and between zero and one, and its fields are encoded; it holds the given fields, and the
  -- key of the sequence of its revision, candidate, baseline, change, confidence and outcome.
  pub new_decision_iff :
      (candidate_summary_key baseline_summary_key : String) (relative_change confidence : F)
      (outcome : DecisionOutcome) (d : BenchDecision f64)
      → (new_decision f64 codec candidate_summary_key baseline_summary_key relative_change
            confidence outcome
          ≡ ok d)
        ↔ IsDecision candidate_summary_key baseline_summary_key relative_change confidence outcome d
  unfolding new_decision decision_identity
  new_decision_iff candidate_summary_key baseline_summary_key relative_change confidence outcome d =
      (
        new_decision-IsDecision candidate_summary_key baseline_summary_key relative_change
            confidence outcome d,
        λ (change, finite, above, below, keyed, e).
            rw (change, finite, above, below, keyed) (ap ok (sym e)),
      )
