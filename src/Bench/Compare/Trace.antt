-- ===== src/Bench/Compare/Trace.antt =====
-- The steps of a `compare` that returns.
use sim_tooling.Support.{◌≡◌, Option, List, Result, ok, ◌>>=◌, >>=-eq-ok, >>=-ok-elim}
use sim_tooling.Bench.Float.{F64, Stats, Interval}
use sim_tooling.Bench.Env.{EnvironmentProbe, compatibility_mismatches}
use sim_tooling.Bench.Env.Fields.{EnvironmentField}
use sim_tooling.Bench.Compare.Pairs.{ComparisonSample, aligned_pair_differences}
use sim_tooling.Bench.Compare.Exclusion.{
  baseline, candidate, stats, Split, exclude_outliers, validate_samples,
}
use sim_tooling.Bench.Compare.{
  RobustComparisonPolicy, RobustSummary, ComparisonReport, validate_policy, assemble, summarize,
  effect, compare,
}
use sim_tooling.Bench.Spec.{MetricDirection}

module _ (f64 : F64) (external : Stats f64) where
  open f64 use {F}

  module _ (bs cs : List (ComparisonSample F)) (direction : MetricDirection)
      (policy : RobustComparisonPolicy f64) (required : List EnvironmentField)
      (b_env c_env : EnvironmentProbe) where
    -- The values that a comparison that returns has computed on its way.
    pub record Trace (report : ComparisonReport f64) : Type 0 where
      pub b : Split f64
      pub c : Split f64
      pub b_summary : Option (RobustSummary f64)
      pub c_summary : Option (RobustSummary f64)
      pub interleaved : Option (Interval F)
      pub paired : Option (Interval F)
      pub admitted : validate_policy f64 policy ≡ ok tt
      pub b_split : exclude_outliers f64 external baseline bs policy.outlier_mad_multiplier ≡ ok b
      pub c_split : exclude_outliers f64 external candidate cs policy.outlier_mad_multiplier ≡ ok c
      pub b_summarized : summarize f64 external b.retained ≡ ok b_summary
      pub c_summarized : summarize f64 external c.retained ≡ ok c_summary
      pub assembled :
          report
          ≡ assemble f64 direction policy
              (compatibility_mismatches required b_env c_env)
              b
              c
              b_summary
              c_summary
              interleaved
              paired

    effects :
        {E C A B R : Type 0} (m : Result E C) (f : C → Result E A) (g : C → Result E B)
        (k : A → B → R) {r : R}
        → (m >>= λ c. f c >>= λ a. g c >>= λ b. ok (k a b)) ≡ ok r
        → (a : A) × (b : B) × (r ≡ k a b)
    effects m f g k h =
        let (c, _, h₁) = >>=-eq-ok m _ h in
        let (a, _, h₂) = >>=-eq-ok (f c) _ h₁ in let (b, _, h₃) = >>=-eq-ok (g c) _ h₂ in (a, b, cc)

    pub trace :
        (report : ComparisonReport f64)
        → compare f64 external bs cs direction policy required b_env c_env ≡ ok report
        → Trace report
    unfolding compare
    trace report h = >>=-ok-elim (validate_policy f64 policy) _ h (λ _ admitted h₁.
        >>=-ok-elim (validate_samples f64 baseline bs) _ h₁ (λ _ _ h₂.
          >>=-ok-elim (validate_samples f64 candidate cs) _ h₂ (λ _ _ h₃.
            >>=-ok-elim (exclude_outliers f64 external baseline bs policy.outlier_mad_multiplier) _
              h₃
              (λ b b_split h₄.
                >>=-ok-elim
                  (exclude_outliers f64 external candidate cs policy.outlier_mad_multiplier) _ h₄
                  (λ c c_split h₅.
                    >>=-ok-elim (summarize f64 external b.retained) _ h₅
                      (λ b_summary b_summarized h₆.
                        >>=-ok-elim (summarize f64 external c.retained) _ h₆
                          (λ c_summary c_summarized h₇.
                            let pairs = aligned_pair_differences f64 b.retained c.retained in
                            let (interleaved, paired, assembled) =
                              effects
                                (stats (
                                  external.control policy.bootstrap_seed policy.bootstrap_resamples
                                    policy.confidence_level policy.bootstrap_max_work))
                                (effect f64 external b.retained c.retained)
                                (effect f64 external pairs.zero pairs.differences)
                                (assemble f64 direction policy
                                  (compatibility_mismatches required b_env c_env) b c b_summary
                                  c_summary)
                                h₇ in
                            record {
                              b = b;
                              c = c;
                              b_summary = b_summary;
                              c_summary = c_summary;
                              interleaved = interleaved;
                              paired = paired;
                              admitted = admitted;
                              b_split = b_split;
                              c_split = c_split;
                              b_summarized = b_summarized;
                              c_summarized = c_summarized;
                              assembled = assembled;
                            })))))))
