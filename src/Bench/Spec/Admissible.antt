-- ===== src/Bench/Spec/Admissible.antt =====
-- Which specifications `validate` accepts.
use sim_tooling.Support.{
  ℕ, suc, ◌<◌, String, ◌≡◌, ◌↔◌, refl, true, false, Option, none, some, List, [], ◌∷◌, ◌++◌, All,
  ok, arith, List-cases, inl, inr, text_order,
}
use sim_tooling.Support.Text.{is_blank}
use sim_tooling.Bench.Float.{F64}
use sim_tooling.Bench.Content.{Codec, ArtifactError, no_metric, required}
use sim_tooling.Bench.Spec.{
  MetricSpec, BenchSpec, metric_errors, name_errors, threshold_errors, policy_errors, spec_errors,
  validate,
}

module _ (f64 : F64) (Value : Type 0) (codec : Codec f64.F Value) where
  open f64 use {F}

  abbrev pub IsNamed : String → Type 0
  IsNamed text = is_blank text ≡ false

  -- `is_finite`, and not below zero.
  abbrev pub IsMagnitude : F → Type 0
  IsMagnitude x = (f64.is_finite x ≡ true) × (f64.lt x f64.zero ≡ false)

  abbrev pub IsThreshold : F → Option F → Type 0
  IsThreshold noise_floor none = Unit
  IsThreshold noise_floor (some threshold) =
      IsMagnitude threshold × (f64.lt threshold noise_floor ≡ false)

  pub record IsAdmissible (s : BenchSpec f64 Value) : Type 0 where
    pub workload_name : IsNamed s.workload.name
    pub workload_revision : IsNamed s.workload.revision
    pub source_revision : IsNamed s.build.source_revision
    pub target : IsNamed s.build.target
    pub profile : IsNamed s.build.profile
    pub toolchain : IsNamed s.build.toolchain
    pub measured : (m : MetricSpec) × (ms : List MetricSpec) × (s.metrics ≡ m ∷ ms)
    pub metrics_named : All (λ m. IsNamed m.name) s.metrics
    pub sampled : 0 < s.sampling_plan.measured_samples
    pub noise : IsMagnitude s.comparison_policy.noise_floor
    pub confident : f64.is_finite s.comparison_policy.confidence_level ≡ true
    pub above_zero : f64.le s.comparison_policy.confidence_level f64.zero ≡ false
    pub below_one : f64.le f64.one s.comparison_policy.confidence_level ≡ false
    pub threshold :
        IsThreshold s.comparison_policy.noise_floor s.comparison_policy.required_threshold
    pub cpus : 0 < s.environment.minimum_logical_cpus

  append_nil_iff : {A : Type 0} (xs ys : List A) → (xs ++ ys ≡ []) ↔ ((xs ≡ []) × (ys ≡ []))
  append_nil_iff [] ys = (λ h. (refl, h), λ (e, h). h)
  append_nil_iff (x ∷ xs) ys = (λ h. cc, λ (e, h). cc)

  required-eq-nil_iff : (text : String) (e : ArtifactError) → (required text e ≡ []) ↔ IsNamed text
  unfolding required
  required-eq-nil_iff text e = ground arith

  metric_errors-eq-nil_iff :
      (n : ℕ) (ms : List MetricSpec)
      → (metric_errors f64 Value codec n ms ≡ []) ↔ All (λ m. IsNamed m.name) ms
  unfolding metric_errors required
  metric_errors-eq-nil_iff n [] = (λ h. tt, λ h. refl)
  metric_errors-eq-nil_iff n (m ∷ ms) = ground (arith, metric_errors-eq-nil_iff (suc n) ms)

  name_errors-eq-nil_iff :
      (s : BenchSpec f64 Value)
      → (name_errors f64 Value codec s ≡ []) ↔ (
          IsNamed s.workload.name
          × IsNamed s.workload.revision
          × IsNamed s.build.source_revision
          × IsNamed s.build.target
          × IsNamed s.build.profile
          × IsNamed s.build.toolchain)
  unfolding name_errors required
  name_errors-eq-nil_iff s = ground arith

  threshold_errors-eq-nil_iff :
      (samples : ℕ) (noise_floor : F) (o : Option F)
      → 0 < samples
      → (threshold_errors f64 Value codec samples noise_floor o ≡ []) ↔ IsThreshold noise_floor o
  unfolding threshold_errors
  threshold_errors-eq-nil_iff samples noise_floor none h = (λ _. tt, λ _. refl)
  threshold_errors-eq-nil_iff samples noise_floor (some t) h = ground arith

  policy_errors-eq-nil_iff :
      (s : BenchSpec f64 Value)
      → (policy_errors f64 Value codec s ≡ []) ↔ (
          (0 < s.sampling_plan.measured_samples)
          × IsMagnitude s.comparison_policy.noise_floor
          × (f64.is_finite s.comparison_policy.confidence_level ≡ true)
          × (f64.le s.comparison_policy.confidence_level f64.zero ≡ false)
          × (f64.le f64.one s.comparison_policy.confidence_level ≡ false)
          × IsThreshold s.comparison_policy.noise_floor s.comparison_policy.required_threshold
          × (0 < s.environment.minimum_logical_cpus))
  unfolding policy_errors
  policy_errors-eq-nil_iff s = ground (
    arith,
    threshold_errors-eq-nil_iff s.sampling_plan.measured_samples s.comparison_policy.noise_floor
        s.comparison_policy.required_threshold,
  )

  metric_list_iff :
      (ms : List MetricSpec)
      → (◌≡◌ {A = List ArtifactError} (elim ms [ [] ↦ no_metric ∷ [] | _ ∷ _ ↦ [] ]) [])
        ↔ ((m : MetricSpec) × (rest : List MetricSpec) × (ms ≡ m ∷ rest))
  metric_list_iff [] = (λ h. cc, λ (m, rest, e). cc)
  metric_list_iff (m ∷ ms) = (λ h. (m, ms, refl), λ h. refl)

  spec_errors-IsAdmissible :
      (s : BenchSpec f64 Value) → (spec_errors f64 Value codec s ≡ []) ↔ IsAdmissible s
  unfolding spec_errors
  spec_errors-IsAdmissible s = (
    λ h.
        let (named, h₁) = (append_nil_iff _ _).0 h in
        let (some_metric, h₂) = (append_nil_iff _ _).0 h₁ in
        let (metrics_named, fair) = (append_nil_iff _ _).0 h₂ in
        let (n₁, n₂, n₃, n₄, n₅, n₆) = (name_errors-eq-nil_iff s).0 named in
        let (p₁, p₂, p₃, p₄, p₅, p₆, p₇) = (policy_errors-eq-nil_iff s).0 fair in
        record {
          workload_name = n₁;
          workload_revision = n₂;
          source_revision = n₃;
          target = n₄;
          profile = n₅;
          toolchain = n₆;
          measured = (metric_list_iff s.metrics).0 some_metric;
          metrics_named = (metric_errors-eq-nil_iff 0 s.metrics).0 metrics_named;
          sampled = p₁;
          noise = p₂;
          confident = p₃;
          above_zero = p₄;
          below_one = p₅;
          threshold = p₆;
          cpus = p₇;
        },
    λ a. (append_nil_iff _ _).1 (
      (name_errors-eq-nil_iff s).1 (
        a.workload_name, a.workload_revision, a.source_revision, a.target, a.profile, a.toolchain,
      ),
      (append_nil_iff _ _).1 (
        (metric_list_iff s.metrics).1 a.measured,
        (append_nil_iff _ _).1 (
          (metric_errors-eq-nil_iff 0 s.metrics).1 a.metrics_named,
          (policy_errors-eq-nil_iff s).1
              (a.sampled, a.noise, a.confident, a.above_zero, a.below_one, a.threshold, a.cpus),
        ),
      ),
    ),
  )

  -- `validate` accepts a specification exactly when it is admissible.
  pub validate-IsAdmissible :
      (s : BenchSpec f64 Value) → (validate f64 Value codec s ≡ ok tt) ↔ IsAdmissible s
  unfolding validate
  validate-IsAdmissible s = elim (List-cases (spec_errors f64 Value codec s)) [
    | inl e ↦ (λ h. (spec_errors-IsAdmissible s).0 e, λ a. rw (validate, e) refl)
    | inr (x, xs, e) ↦ (λ h. ground arith, λ a. cc ((spec_errors-IsAdmissible s).1 a))
  ]
