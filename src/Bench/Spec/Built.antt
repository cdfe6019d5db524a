-- ===== src/Bench/Spec/Built.antt =====
-- What `BenchSpec::new` returns, and when.
use sim_tooling.Support.{
  String, ◌≡◌, ◌↔◌, refl, ap, sym, subst, ◌∙◌, Option, List, ok, inl, inr, ok-inj, Result-cases,
  text_order,
}
use sim_tooling.Support.Sets
use sim_tooling.Support.Sorting.{sort, dedup, dedup-sort-IsSorted, contains-dedup-sort}
use sim_tooling.Bench.Float.{F64}
use sim_tooling.Bench.Content.{Codec, content_key}
use sim_tooling.Bench.Identity.{serialize_identity}
use sim_tooling.Bench.Spec.{
  BuildIdentity, MetricSpec, SamplingPlan, EnvironmentRequirements, WorkloadIdentity,
  ComparisonPolicy, BenchSpec, identity, spec_errors, name_errors, policy_errors, validate,
  sorted_build, sorted_environment, unkeyed, new,
}
use sim_tooling.Bench.Spec.Admissible.{IsAdmissible, validate-IsAdmissible}
use sim_tooling.Bench.Spec.Canonical.{SameTexts, SameBuild, SameRequirements}

sorted_only : (xs ys : List String) → SameTexts xs ys → Sets.IsSorted ys → dedup (sort xs) ≡ ys
sorted_only xs ys same sorted =
    Sets.IsSorted-ext (dedup (sort xs)) ys (dedup-sort-IsSorted xs) sorted
      λ a. contains-dedup-sort a xs ∙ same a

module _ (f64 : F64) (Value : Type 0) (codec : Codec f64.F Value) where
  module _ (workload : WorkloadIdentity f64 Value) (build : BuildIdentity)
      (metrics : List MetricSpec) (plan : SamplingPlan) (policy : ComparisonPolicy f64 Value)
      (environment : EnvironmentRequirements) (comment : Option String) where
    -- An admissible specification of these parts, with the features and the capabilities in
    -- strictly increasing order and the key of its fields.
    pub record IsBuilt (s : BenchSpec f64 Value) : Type 0 where
      pub admissible : IsAdmissible f64 Value codec s
      pub revision : s.schema_revision ≡ 1
      pub same_workload : workload ≡ s.workload
      pub same_build : SameBuild build s.build
      pub features : Sets.IsSorted s.build.features
      pub same_metrics : metrics ≡ s.metrics
      pub same_plan : plan ≡ s.sampling_plan
      pub same_policy : policy ≡ s.comparison_policy
      pub same_environment : SameRequirements environment s.environment
      pub capabilities : Sets.IsSorted s.environment.capabilities
      pub same_comment : comment ≡ s.comment
      pub keyed :
          content_key codec (
            serialize_identity f64 Value (record {
              schema_revision = s.schema_revision;
              workload = s.workload;
              build = s.build;
              metrics = s.metrics;
              sampling_plan = s.sampling_plan;
              comparison_policy = s.comparison_policy;
              environment = s.environment;
            }))
          ≡ ok s.content_key

    abbrev made : String → BenchSpec f64 Value
    made = unkeyed f64 Value codec workload build metrics plan policy environment comment

    made-IsBuilt :
        (key : String)
        → validate f64 Value codec (made "") ≡ ok tt
        → content_key codec (serialize_identity f64 Value (identity f64 Value (made ""))) ≡ ok key
        → IsBuilt (made key)
    unfolding unkeyed identity sorted_build sorted_environment validate spec_errors name_errors
        policy_errors
    made-IsBuilt key valid keyed = record {
      admissible = (validate-IsAdmissible f64 Value codec (made key)).0 valid;
      revision = refl;
      same_workload = refl;
      same_build = record {
        source_revision = refl;
        target = refl;
        profile = refl;
        features = λ a. sym (contains-dedup-sort a build.features);
        toolchain = refl;
      };
      features = dedup-sort-IsSorted build.features;
      same_metrics = refl;
      same_plan = refl;
      same_policy = refl;
      same_environment = record {
        operating_system = refl;
        architecture = refl;
        minimum_logical_cpus = refl;
        minimum_memory_bytes = refl;
        capabilities = λ a. sym (contains-dedup-sort a environment.capabilities);
        network_isolation = refl;
      };
      capabilities = dedup-sort-IsSorted environment.capabilities;
      same_comment = refl;
      keyed = keyed;
    }

    IsBuilt-made : (s : BenchSpec f64 Value) → IsBuilt s → made s.content_key ≡ s
    unfolding unkeyed sorted_build sorted_environment
    IsBuilt-made s b =
        let sb = b.same_build in
        let se = b.same_environment in
        cc (
          b.revision,
          b.same_workload,
          b.same_metrics,
          b.same_plan,
          b.same_policy,
          b.same_comment,
          sb.source_revision,
          sb.target,
          sb.profile,
          sb.toolchain,
          sorted_only build.features s.build.features sb.features b.features,
          se.operating_system,
          se.architecture,
          se.minimum_logical_cpus,
          se.minimum_memory_bytes,
          se.network_isolation,
          sorted_only environment.capabilities s.environment.capabilities se.capabilities
              b.capabilities,
        )

    -- `new` returns a specification exactly when it is an admissible one of the given parts, with
    -- the same features and capabilities in strictly increasing order, and its key is that of all
    -- its fields but the comment and the key itself.
    pub new_iff :
        (s : BenchSpec f64 Value)
        → (new f64 Value codec workload build metrics plan policy environment comment ≡ ok s)
          ↔ IsBuilt s
    unfolding new unkeyed identity validate spec_errors name_errors policy_errors
    new_iff s = (
      λ h. elim (Result-cases (validate f64 Value codec (made ""))) [
        | inl (u, valid) ↦
            elim (Result-cases
              (content_key codec (serialize_identity f64 Value (identity f64 Value (made ""))))) [
                | inl (k, keyed) ↦
                    subst IsBuilt (ok-inj (rw (valid, keyed) at h)) (made-IsBuilt k valid keyed)
                | inr (x, failed) ↦ cc (rw (valid, failed) at h)
              ]
        | inr (x, refused) ↦ cc (rw refused at h)
      ],
      λ b.
          let e = IsBuilt-made s b in
          let valid : validate f64 Value codec (made s.content_key) ≡ ok tt =
            rw e ((validate-IsAdmissible f64 Value codec s).1 b.admissible) in
          let keyed : content_key codec
                (serialize_identity f64 Value (identity f64 Value (made s.content_key)))
              ≡ ok s.content_key =
            subst
              (λ x.
                content_key codec (serialize_identity f64 Value (identity f64 Value x))
                ≡ ok s.content_key)
              (sym e) b.keyed in
          rw (valid, keyed) (ap ok e),
    )
