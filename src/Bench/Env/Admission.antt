-- ===== src/Bench/Env/Admission.antt =====
-- When two environments are comparable, by a policy that requires some of their fields.
use sim_tooling.Support.{
  ℕ, ==_iff, String, ◌≡◌, ◌↔◌, inl, inr, refl, sym, ap, Bool, true, none, List, [], ◌∷◌, All,
  same_key_iff, text_order, arith, Option-cases,
}
use sim_tooling.Bench.Env.Fields.{
  EnvironmentField, host_inventory_id, host_ssh_host, operating_system, architecture, cpu_model,
  logical_cpus, memory_bytes, cpu_governor, build_source_revision, build_target, build_profile,
  build_features, build_toolchain, field_order,
}
use sim_tooling.Bench.Env.{
  ProbeEvidence, available, unavailable, EnvironmentProbe, text_eq, texts_eq, number_eq,
  compare_values, compare_evidence, field_difference, compare_field, compatibility_mismatches,
}

-- Both sides were probed, and with one value.
abbrev pub BothShow {ℓ} : {T : Type ℓ} → ProbeEvidence T → ProbeEvidence T → Type ℓ
BothShow {T} b c = (v : T) × (b ≡ available v) × (c ≡ available v)

-- What it means for the two environments to agree on a field.
abbrev pub Agrees : EnvironmentField → EnvironmentProbe → EnvironmentProbe → Type 0
Agrees host_inventory_id b c = b.host.host.inventory_id ≡ c.host.host.inventory_id
Agrees host_ssh_host b c = b.host.host.ssh_host ≡ c.host.host.ssh_host
Agrees operating_system b c = BothShow b.host.operating_system c.host.operating_system
Agrees architecture b c = BothShow b.host.architecture c.host.architecture
Agrees cpu_model b c = BothShow b.host.cpu_model c.host.cpu_model
Agrees logical_cpus b c = BothShow b.host.logical_cpus c.host.logical_cpus
Agrees memory_bytes b c = BothShow b.host.memory_bytes c.host.memory_bytes
Agrees cpu_governor b c = BothShow b.host.cpu_governor c.host.cpu_governor
Agrees build_source_revision b c = BothShow b.build.source_revision c.build.source_revision
Agrees build_target b c = BothShow b.build.target c.build.target
Agrees build_profile b c = BothShow b.build.profile c.build.profile
Agrees build_features b c = BothShow b.build.features c.build.features
Agrees build_toolchain b c = BothShow b.build.toolchain c.build.toolchain

texts_eq_iff : (xs ys : List String) → (texts_eq xs ys ≡ true) ↔ (xs ≡ ys)
texts_eq_iff [] [] = (λ h. refl, λ e. refl)
texts_eq_iff [] (y ∷ ys) = (λ h. cc, λ e. cc)
texts_eq_iff (x ∷ xs) [] = (λ h. cc, λ e. cc)
texts_eq_iff (x ∷ xs) (y ∷ ys) = ground (arith, same_key_iff x y, texts_eq_iff xs ys)

number_eq_iff : (a b : ℕ) → (number_eq a b ≡ true) ↔ (a ≡ b)
number_eq_iff a b = ==_iff a b

module _ {ℓ} {T : Type ℓ} (eq : T → T → Bool) (eq_iff : (a b : T) → (eq a b ≡ true) ↔ (a ≡ b)) where
  compare_values_iff : (a b : T) → (compare_values eq a b ≡ none) ↔ (a ≡ b)
  unfolding compare_values
  compare_values_iff a b = ground (arith, eq_iff a b)

  compare_evidence_iff : (b c : ProbeEvidence T) → (compare_evidence eq b c ≡ none) ↔ BothShow b c
  unfolding compare_evidence
  compare_evidence_iff (available x) (available y) = (
    λ h. (x, refl, ap available (sym ((compare_values_iff x y).0 h))),
    λ (v, p, q). (compare_values_iff x y).1 (cc),
  )
  compare_evidence_iff (available x) (unavailable r) = (λ h. cc, λ (v, p, q). cc)
  compare_evidence_iff (unavailable r) c = (λ h. cc, λ (v, p, q). cc)

module _ (b c : EnvironmentProbe) where
  field_difference_iff : (f : EnvironmentField) → (field_difference f b c ≡ none) ↔ Agrees f b c
  unfolding field_difference
  field_difference_iff host_inventory_id = compare_values_iff text_eq same_key_iff _ _
  field_difference_iff host_ssh_host = compare_values_iff text_eq same_key_iff _ _
  field_difference_iff logical_cpus = compare_evidence_iff number_eq number_eq_iff _ _
  field_difference_iff memory_bytes = compare_evidence_iff number_eq number_eq_iff _ _
  field_difference_iff build_features = compare_evidence_iff texts_eq texts_eq_iff _ _
  field_difference_iff _ = compare_evidence_iff text_eq same_key_iff _ _

  -- `compatibility_mismatches` reports nothing exactly when, for each required field, both
  -- environments show a value and it is the same one.
  pub compatibility_mismatches_iff :
      (required : List EnvironmentField)
      → (compatibility_mismatches required b c ≡ []) ↔ All (λ f. Agrees f b c) required
  unfolding compatibility_mismatches compare_field
  compatibility_mismatches_iff [] = (λ h. tt, λ h. refl)
  compatibility_mismatches_iff (f ∷ fs) = elim (Option-cases (field_difference f b c)) [
    | inl same ↦ (
      λ h. ((field_difference_iff f).0 same, (compatibility_mismatches_iff fs).0 (ground arith)),
      λ (a, h). ground (arith, (compatibility_mismatches_iff fs).1 h),
    )
    | inr (d, differs) ↦ (λ h. absurd (ground arith), λ (a, h). cc ((field_difference_iff f).1 a))
  ]
