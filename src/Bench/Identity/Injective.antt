-- ===== src/Bench/Identity/Injective.antt =====
-- The calls of a specification's identity determine it.
use mathlib.Core.List.{append_assoc}
use sim_tooling.Support.{◌≡◌, refl, sym, ap, ap₂, ◌∙◌, none, some, List, [], ◌∷◌, ◌++◌, text_order}
use sim_tooling.Bench.Float.{F64}
use sim_tooling.Bench.Serialize.{
  Call, begin_map, begin_sequence, end, boolean, number, float, text, write_option, write_texts,
  write_parameters,
}
use sim_tooling.Bench.Identity.PrefixFree.{
  IsPrefixFree, write_option-IsPrefixFree, write_texts-IsPrefixFree, write_parameters-IsPrefixFree,
  call-IsPrefixFree, text-IsPrefixFree, number-IsPrefixFree, boolean-IsPrefixFree,
  float-IsPrefixFree, unit-IsPrefixFree, direction-IsPrefixFree, tail_of, no_field, field,
}
use sim_tooling.Bench.Identity.{
  BuildIdentity, MetricSpec, SamplingPlan, EnvironmentRequirements, WorkloadIdentity,
  ComparisonPolicy, BenchSpecIdentity, unit_name, direction_name, serialize_build, serialize_metric,
  serialize_metrics, serialize_plan, serialize_environment, serialize_workload, serialize_threshold,
  serialize_policy, serialize_identity,
}

module _ {F Value : Type 0} where
  serialize_plan-IsPrefixFree : IsPrefixFree (serialize_plan {F = F} {Value = Value})
  unfolding serialize_plan
  serialize_plan-IsPrefixFree a b r s h =
      let (same, rest) =
        (field "warmup_samples" (λ x. number x ∷ []) number-IsPrefixFree
            (λ (x : SamplingPlan). x.warmup_samples) _ _
            (field "measured_samples" (λ x. number x ∷ []) number-IsPrefixFree
              (λ (x : SamplingPlan). x.measured_samples) _ _
              (field "seed" (λ x. number x ∷ []) number-IsPrefixFree (λ (x : SamplingPlan). x.seed)
                _ _ no_field)))
          a b r s (tail_of h) in
      (cc, rest)

  serialize_metric-IsPrefixFree : IsPrefixFree (serialize_metric {F = F} {Value = Value})
  unfolding serialize_metric
  serialize_metric-IsPrefixFree a b r s h =
      let (same, rest) =
        (field "name" (λ x. text x ∷ []) text-IsPrefixFree (λ (x : MetricSpec). x.name) _ _
            (field "unit" (λ x. text (unit_name x) ∷ []) unit-IsPrefixFree
              (λ (x : MetricSpec). x.unit) _ _
              (field "direction" (λ x. text (direction_name x) ∷ []) direction-IsPrefixFree
                (λ (x : MetricSpec). x.direction) _ _ no_field)))
          a b r s (tail_of h) in
      (cc, rest)

  metric_not_end :
      (m : MetricSpec) (r s : List (Call F Value)) (ms : List MetricSpec) {B : Type 0}
      → end ∷ r ≡ serialize_metric m ++ s
      → B
  unfolding serialize_metric
  metric_not_end m r s ms h = cc

  serialize_metrics-IsPrefixFree : IsPrefixFree (serialize_metrics {F = F} {Value = Value})
  unfolding serialize_metrics
  serialize_metrics-IsPrefixFree [] [] r s h = (refl, cc)
  serialize_metrics-IsPrefixFree [] (b ∷ bs) r s h =
      metric_not_end b r (serialize_metrics bs ++ s) bs
        (h ∙ append_assoc (serialize_metric b) (serialize_metrics bs) s)
  serialize_metrics-IsPrefixFree (a ∷ as') [] r s h =
      metric_not_end a s (serialize_metrics as' ++ r) as'
        (sym h ∙ append_assoc (serialize_metric a) (serialize_metrics as') r)
  serialize_metrics-IsPrefixFree (a ∷ as') (b ∷ bs) r s h =
      let (e, h₁) =
        serialize_metric-IsPrefixFree a b (serialize_metrics as' ++ r) (serialize_metrics bs ++ s) (
          sym (append_assoc (serialize_metric a) (serialize_metrics as') r)
          ∙ (h ∙ append_assoc (serialize_metric b) (serialize_metrics bs) s)) in
      let (tails, rest) = serialize_metrics-IsPrefixFree as' bs r s h₁ in (ap₂ ◌∷◌ e tails, rest)

  serialize_build-IsPrefixFree : IsPrefixFree (serialize_build {F = F} {Value = Value})
  unfolding serialize_build
  serialize_build-IsPrefixFree a b r s h =
      let (same, rest) =
        (field "source_revision" (λ x. text x ∷ []) text-IsPrefixFree
            (λ (x : BuildIdentity). x.source_revision) _ _
            (field "target" (λ x. text x ∷ []) text-IsPrefixFree (λ (x : BuildIdentity). x.target) _
              _
              (field "profile" (λ x. text x ∷ []) text-IsPrefixFree
                (λ (x : BuildIdentity). x.profile) _ _
                (field "features" (λ x. begin_sequence ∷ write_texts x)
                  (call-IsPrefixFree begin_sequence write_texts write_texts-IsPrefixFree)
                  (λ (x : BuildIdentity). x.features) _ _
                  (field "toolchain" (λ x. text x ∷ []) text-IsPrefixFree
                    (λ (x : BuildIdentity). x.toolchain) _ _ no_field)))))
          a b r s (tail_of h) in
      (cc, rest)

  serialize_environment-IsPrefixFree : IsPrefixFree (serialize_environment {F = F} {Value = Value})
  unfolding serialize_environment
  serialize_environment-IsPrefixFree a b r s h =
      let (same, rest) =
        (field "operating_system" write_option write_option-IsPrefixFree
            (λ (x : EnvironmentRequirements). x.operating_system) _ _
            (field "architecture" write_option write_option-IsPrefixFree
              (λ (x : EnvironmentRequirements). x.architecture) _ _
              (field "minimum_logical_cpus" (λ x. number x ∷ []) number-IsPrefixFree
                (λ (x : EnvironmentRequirements). x.minimum_logical_cpus) _ _
                (field "minimum_memory_bytes" (λ x. number x ∷ []) number-IsPrefixFree
                  (λ (x : EnvironmentRequirements). x.minimum_memory_bytes) _ _
                  (field "capabilities" (λ x. begin_sequence ∷ write_texts x)
                    (call-IsPrefixFree begin_sequence write_texts write_texts-IsPrefixFree)
                    (λ (x : EnvironmentRequirements). x.capabilities) _ _
                    (field "network_isolation" (λ x. boolean x ∷ []) boolean-IsPrefixFree
                      (λ (x : EnvironmentRequirements). x.network_isolation) _ _ no_field))))))
          a b r s (tail_of h) in
      (cc, rest)

module _ (f64 : F64) (Value : Type 0) where
  open f64 use {F}

  serialize_workload-IsPrefixFree : IsPrefixFree (serialize_workload f64 Value)
  unfolding serialize_workload
  serialize_workload-IsPrefixFree a b r s h =
      let (same, rest) =
        (field "name" (λ x. text x ∷ []) text-IsPrefixFree
            (λ (x : WorkloadIdentity f64 Value). x.name) _ _
            (field "revision" (λ x. text x ∷ []) text-IsPrefixFree
              (λ (x : WorkloadIdentity f64 Value). x.revision) _ _
              (field "parameters" (λ x. begin_map ∷ write_parameters x)
                (call-IsPrefixFree begin_map write_parameters write_parameters-IsPrefixFree)
                (λ (x : WorkloadIdentity f64 Value). x.parameters) _ _ no_field)))
          a b r s (tail_of h) in
      (cc, rest)

  serialize_threshold-IsPrefixFree : IsPrefixFree (serialize_threshold f64 Value)
  unfolding serialize_threshold
  serialize_threshold-IsPrefixFree none none r s h = (refl, cc)
  serialize_threshold-IsPrefixFree none (some b) r s h = cc
  serialize_threshold-IsPrefixFree (some a) none r s h = cc
  serialize_threshold-IsPrefixFree (some a) (some b) r s h = (cc, cc)

  serialize_policy-IsPrefixFree : IsPrefixFree (serialize_policy f64 Value)
  unfolding serialize_policy
  serialize_policy-IsPrefixFree a b r s h =
      let (same, rest) =
        (field "required_threshold" (serialize_threshold f64 Value) serialize_threshold-IsPrefixFree
            (λ (x : ComparisonPolicy f64 Value). x.required_threshold) _ _
            (field "noise_floor" (λ x. float x ∷ []) float-IsPrefixFree
              (λ (x : ComparisonPolicy f64 Value). x.noise_floor) _ _
              (field "confidence_level" (λ x. float x ∷ []) float-IsPrefixFree
                (λ (x : ComparisonPolicy f64 Value). x.confidence_level) _ _ no_field)))
          a b r s (tail_of h) in
      (cc, rest)

  -- Identities that make the same calls are the same: no field is left out of what is encoded, and
  -- no value of one runs into another.
  pub serialize_identity-injective :
      (i j : BenchSpecIdentity f64 Value)
      → serialize_identity f64 Value i ≡ serialize_identity f64 Value j
      → i ≡ j
  unfolding serialize_identity
  serialize_identity-injective i j h =
      let (same, _) =
        (field "schema_revision" (λ x. number x ∷ []) number-IsPrefixFree
            (λ (x : BenchSpecIdentity f64 Value). x.schema_revision) _ _
            (field "workload" (serialize_workload f64 Value) serialize_workload-IsPrefixFree
              (λ (x : BenchSpecIdentity f64 Value). x.workload) _ _
              (field "build" serialize_build serialize_build-IsPrefixFree
                (λ (x : BenchSpecIdentity f64 Value). x.build) _ _
                (field "metrics" (λ x. begin_sequence ∷ serialize_metrics x)
                  (call-IsPrefixFree begin_sequence serialize_metrics
                    serialize_metrics-IsPrefixFree)
                  (λ (x : BenchSpecIdentity f64 Value). x.metrics) _ _
                  (field "sampling_plan" serialize_plan serialize_plan-IsPrefixFree
                    (λ (x : BenchSpecIdentity f64 Value). x.sampling_plan) _ _
                    (field "comparison_policy" (serialize_policy f64 Value)
                      serialize_policy-IsPrefixFree
                      (λ (x : BenchSpecIdentity f64 Value). x.comparison_policy) _ _
                      (field "environment" serialize_environment serialize_environment-IsPrefixFree
                        (λ (x : BenchSpecIdentity f64 Value). x.environment) _ _ no_field)))))))
          i j [] [] (ap (λ x. x ++ []) (tail_of h)) in
      cc
