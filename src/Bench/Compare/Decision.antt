-- ===== src/Bench/Compare/Decision.antt =====
-- What a report of `compare` says about its outcome.
use sim_tooling.Support.{
  ◌≡◌, ◌≢◌, ◌≤◌, refl, sym, Bool, false, Option, some, List, [], ◌∷◌, ◌++◌, length, arith,
  Bool-cases, ◌⊎◌, subst, if◌then◌else◌, inl, inr, ltb, ok, >>=-ok-elim, ok-inj, List-cases,
}
use sim_tooling.Bench.Float.{F64, Stats, Interval}
use sim_tooling.Bench.Env.{EnvironmentProbe, CompatibilityMismatch, compatibility_mismatches}
use sim_tooling.Bench.Env.Fields.{EnvironmentField}
use sim_tooling.Bench.Compare.Pairs.{ComparisonSample}
use sim_tooling.Bench.Compare.Exclusion.{baseline, candidate, stats, SampleSide, Split, values}
use sim_tooling.Bench.Compare.Exclusion.Partition.{length-values}
use sim_tooling.Bench.Compare.{
  RobustComparisonPolicy, RobustSummary, Reason, ComparisonReport, validate_policy, reason_if,
  sample_reason, dispersion_reason, environment_reason, regression, decide, assemble, summarize,
  compare,
}
use sim_tooling.Bench.Compare.Trace.{trace}
use sim_tooling.Bench.Spec.{MetricDirection, lower_is_better, higher_is_better}
use sim_tooling.Bench.Artifact.{pass, fail, inconclusive}

module _ (f64 : F64) (external : Stats f64) where
  open f64 use {F}

  append-eq-nil : {A : Type 0} (xs ys : List A) → xs ++ ys ≡ [] → (xs ≡ []) × (ys ≡ [])
  append-eq-nil [] ys h = (refl, h)
  append-eq-nil (x ∷ xs) ys h = cc

  -- What a conclusive report shows of one side.
  abbrev pub Reliable : RobustComparisonPolicy f64 → Option (RobustSummary f64) → Type 0
  Reliable policy side =
      (summary : RobustSummary f64) × (side ≡ some summary)
      × (policy.minimum_samples ≤ summary.sample_count)
      × (f64.lt policy.maximum_relative_dispersion summary.relative_dispersion ≡ false)

  reason_if-eq-nil : (b : Bool) (r : Reason f64) → reason_if f64 b r ≡ [] → b ≡ false
  reason_if-eq-nil b r h = ground arith

  validate_policy-minimum :
      (p : RobustComparisonPolicy f64) → validate_policy f64 p ≡ ok tt → 2 ≤ p.minimum_samples
  unfolding validate_policy
  validate_policy-minimum p h = ground arith

  summarize-count :
      (xs : List (ComparisonSample F)) (o : Option (RobustSummary f64))
      → 2 ≤ length xs
      → summarize f64 external xs ≡ ok o
      → (summary : RobustSummary f64) × (o ≡ some summary) × (summary.sample_count ≡ length xs)
  unfolding summarize
  summarize-count xs o l h = elim (Bool-cases (ltb (length xs) 2)) [
    | inl e ↦ ground arith
    | inr e ↦ >>=-ok-elim (stats (external.mean (values f64 xs))) _ (rw e at h) (λ mean _ h₁.
        >>=-ok-elim (stats (external.exact_quantile (values f64 xs) f64.half)) _ h₁ (λ median _ h₂.
          >>=-ok-elim (stats (external.sample_variance (values f64 xs))) _ h₂ (λ variance _ h₃.
            >>=-ok-elim (stats (external.median_absolute_deviation (values f64 xs))) _ h₃
              (λ mad _ h₄. (_, sym (ok-inj h₄), length-values f64 xs)))))
  ]

  sample_reason-eq-nil :
      (side : SampleSide) (p : RobustComparisonPolicy f64) (xs : List (ComparisonSample F))
      → sample_reason f64 side p xs ≡ []
      → p.minimum_samples ≤ length xs
  unfolding sample_reason
  sample_reason-eq-nil side p xs h = ground arith

  dispersion_reason-eq-nil :
      (side : SampleSide) (p : RobustComparisonPolicy f64) (summary : RobustSummary f64)
      → dispersion_reason f64 side p (some summary) ≡ []
      → f64.lt p.maximum_relative_dispersion summary.relative_dispersion ≡ false
  unfolding dispersion_reason
  dispersion_reason-eq-nil side p summary h = ground arith

  environment_reason-eq-nil :
      (ms : List CompatibilityMismatch) → environment_reason f64 ms ≡ [] → ms ≡ []
  unfolding environment_reason
  environment_reason-eq-nil [] h = refl
  environment_reason-eq-nil (m ∷ ms) h = cc

  regression-some :
      (direction : MetricDirection) (b c : RobustSummary f64)
      → (regression f64 direction (some b) (some c)).1 ≡ []
      → (r : F) × ((regression f64 direction (some b) (some c)).0 ≡ some r)
  unfolding regression
  regression-some lower_is_better b c h = elim (Bool-cases (f64.eq b.mean f64.zero)) [
    | inl e ↦ ground arith
    | inr e ↦ (f64.sub (f64.div c.mean b.mean) f64.one, rw e refl)
  ]
  regression-some higher_is_better b c h = elim (Bool-cases (f64.eq c.mean f64.zero)) [
    | inl e ↦ ground arith
    | inr e ↦ (f64.sub (f64.div b.mean c.mean) f64.one, rw e refl)
  ]

  -- What a conclusive report shows.
  pub record IsConclusive (direction : MetricDirection) (policy : RobustComparisonPolicy f64)
      (report : ComparisonReport f64) : Type 0 where
    pub baseline_reliable : Reliable policy report.baseline
    pub candidate_reliable : Reliable policy report.candidate
    pub compatible : report.environment_mismatches ≡ []
    pub effect_size : F
    pub measured : report.relative_regression ≡ some effect_size
    pub computed : (regression f64 direction report.baseline report.candidate).0 ≡ some effect_size
    pub decided :
        report.outcome ≡ (if f64.lt policy.required_threshold effect_size then fail else pass)

  module _ (direction : MetricDirection) (policy : RobustComparisonPolicy f64) where
    reliable :
        (side : SampleSide) (xs : List (ComparisonSample F)) (o : Option (RobustSummary f64))
        → validate_policy f64 policy ≡ ok tt
        → summarize f64 external xs ≡ ok o
        → sample_reason f64 side policy xs ≡ []
        → dispersion_reason f64 side policy o ≡ []
        → Reliable policy o
    reliable side xs o admitted summarized enough steady =
        let m = sample_reason-eq-nil side policy xs enough in
        let v = validate_policy-minimum policy admitted in
        let (summary, e, counted) = summarize-count xs o (omega arith) summarized in
        (summary, e, omega arith, dispersion_reason-eq-nil side policy summary (rw e at steady))

    measured-regression :
        (b c : Option (RobustSummary f64))
        → Reliable policy b
        → Reliable policy c
        → (regression f64 direction b c).1 ≡ []
        → (r : F) × ((regression f64 direction b c).0 ≡ some r)
    measured-regression b c (b', e, _, _) (c', e', _, _) h =
        rw (e, e') (regression-some direction b' c' (rw (e, e') at h))

    decide-nil :
        (reasons : List (Reason f64)) (effect_size : Option F) (r : F)
        → reasons ≡ []
        → effect_size ≡ some r
        → decide f64 reasons effect_size policy.required_threshold
          ≡ (if f64.lt policy.required_threshold r then fail else pass)
    unfolding decide
    decide-nil reasons effect_size r h e = rw (h, e) refl

    conclusive :
        (ms : List CompatibilityMismatch) (b c : Split f64)
        (b_summary c_summary : Option (RobustSummary f64))
        (interleaved paired : Option (Interval F))
        → validate_policy f64 policy ≡ ok tt
        → summarize f64 external b.retained ≡ ok b_summary
        → summarize f64 external c.retained ≡ ok c_summary
        → (assemble f64 direction policy ms b c b_summary c_summary interleaved
            paired).inconclusive_reasons
          ≡ []
        → IsConclusive direction policy
            (assemble f64 direction policy ms b c b_summary c_summary interleaved paired)
    unfolding assemble
    conclusive ms b c b_summary c_summary interleaved paired admitted b_done c_done none_left =
        let (b_enough, h₁) = append-eq-nil _ _ none_left in
        let (c_enough, h₂) = append-eq-nil _ _ h₁ in
        let (b_steady, h₃) = append-eq-nil _ _ h₂ in
        let (c_steady, h₄) = append-eq-nil _ _ h₃ in
        let (same, h₅) = append-eq-nil _ _ h₄ in
        let (_, measurable) = append-eq-nil _ _ h₅ in
        let b_reliable = reliable baseline b.retained b_summary admitted b_done b_enough b_steady in
        let c_reliable =
          reliable candidate c.retained c_summary admitted c_done c_enough c_steady in
        let (r, e) = measured-regression b_summary c_summary b_reliable c_reliable measurable in
        record {
          baseline_reliable = b_reliable;
          candidate_reliable = c_reliable;
          compatible = environment_reason-eq-nil ms same;
          effect_size = r;
          measured = e;
          computed = e;
          decided = decide-nil _ _ r none_left e;
        }

  -- A comparison that returns is inconclusive when it has a reason, and otherwise it has two
  -- summaries of at least the minimum of samples and of an admitted dispersion, no environment
  -- mismatch, and a measured relative regression, and it fails exactly when that exceeds the threshold.
  pub compare_outcome :
      (bs cs : List (ComparisonSample F)) (direction : MetricDirection)
      (policy : RobustComparisonPolicy f64) (required : List EnvironmentField)
      (b_env c_env : EnvironmentProbe) (report : ComparisonReport f64)
      → compare f64 external bs cs direction policy required b_env c_env ≡ ok report
      → ((report.inconclusive_reasons ≢ []) × (report.outcome ≡ inconclusive))
        ⊎ ((report.inconclusive_reasons ≡ []) × IsConclusive direction policy report)
  unfolding assemble decide
  compare_outcome bs cs direction policy required b_env c_env report h =
      let t = trace f64 external bs cs direction policy required b_env c_env report h in
      subst
        (λ r.
          ((r.inconclusive_reasons ≢ []) × (r.outcome ≡ inconclusive))
          ⊎ ((r.inconclusive_reasons ≡ []) × IsConclusive direction policy r))
        (sym t.assembled)
        (elim (List-cases
          (assemble f64 direction policy (compatibility_mismatches required b_env c_env) t.b t.c
            t.b_summary t.c_summary t.interleaved t.paired).inconclusive_reasons) [
              | inl e ↦ inr (
                e,
                conclusive direction policy _ t.b t.c t.b_summary t.c_summary t.interleaved t.paired
                    t.admitted t.b_summarized t.c_summarized e,
              )
              | inr (r, rs, e) ↦ inl (λ h'. ground arith, rw e refl)
            ])
