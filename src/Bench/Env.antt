-- ===== src/Bench/Env.antt =====
-- bench/env.rs: the environment evidence of a run, and which of its fields must agree.
pub mod Fields
pub mod Admission
pub mod Evidence
use Prim.Native.String.{◌++◌ as cat}
use sim_tooling.Support.{
  ℕ, String, Bool, true, false, not, ◌&&◌, Option, none, some, List, [], ◌∷◌, ◌==◌, same_key,
  text_order, if◌then◌else◌,
}
use sim_tooling.Bench.Env.Fields.{
  EnvironmentField, host_inventory_id, host_ssh_host, operating_system, architecture, cpu_model,
  logical_cpus, memory_bytes, cpu_governor, build_source_revision, build_target, build_profile,
  build_features, build_toolchain, name,
}

pub record DeclaredHost : Type 0 where
  pub inventory_id : String
  pub ssh_host : String

pub data ProbeEvidence {ℓ} (T : Type ℓ) : Type ℓ where
  available : T → ProbeEvidence T
  unavailable : String → ProbeEvidence T

pub record HostEnvironment : Type 0 where
  pub host : DeclaredHost
  pub operating_system : ProbeEvidence String
  pub architecture : ProbeEvidence String
  pub cpu_model : ProbeEvidence String
  pub logical_cpus : ProbeEvidence ℕ
  pub memory_bytes : ProbeEvidence ℕ
  pub cpu_governor : ProbeEvidence String

pub record BuildEnvironment : Type 0 where
  pub source_revision : ProbeEvidence String
  pub target : ProbeEvidence String
  pub profile : ProbeEvidence String
  pub features : ProbeEvidence (List String)
  pub toolchain : ProbeEvidence String

pub record EnvironmentProbe : Type 0 where
  pub host : HostEnvironment
  pub build : BuildEnvironment

-- `PartialEq` of the compared values.
abbrev pub text_eq : String → String → Bool
text_eq a b = same_key a b

abbrev pub texts_eq : List String → List String → Bool
texts_eq [] [] = true
texts_eq [] (b ∷ bs) = false
texts_eq (a ∷ as') [] = false
texts_eq (a ∷ as') (b ∷ bs) = text_eq a b && texts_eq as' bs

abbrev pub number_eq : ℕ → ℕ → Bool
number_eq a b = a == b

pub compare_values {ℓ} : {T : Type ℓ} → (T → T → Bool) → T → T → Option String
compare_values eq baseline candidate =
    if eq baseline candidate then none else some "baseline and candidate differ"

pub compare_evidence {ℓ} :
    {T : Type ℓ} → (T → T → Bool) → ProbeEvidence T → ProbeEvidence T → Option String
compare_evidence eq (available left) (available right) = compare_values eq left right
compare_evidence eq (unavailable reason) _ = some (cat "baseline unavailable: " reason)
compare_evidence eq (available left) (unavailable reason) =
    some (cat "candidate unavailable: " reason)

-- The `match` of `compare_field`.
pub field_difference : EnvironmentField → EnvironmentProbe → EnvironmentProbe → Option String
unfolding compare_values compare_evidence
field_difference host_inventory_id b c =
    compare_values text_eq b.host.host.inventory_id c.host.host.inventory_id
field_difference host_ssh_host b c =
    compare_values text_eq b.host.host.ssh_host c.host.host.ssh_host
field_difference operating_system b c =
    compare_evidence text_eq b.host.operating_system c.host.operating_system
field_difference architecture b c = compare_evidence text_eq b.host.architecture c.host.architecture
field_difference cpu_model b c = compare_evidence text_eq b.host.cpu_model c.host.cpu_model
field_difference logical_cpus b c =
    compare_evidence number_eq b.host.logical_cpus c.host.logical_cpus
field_difference memory_bytes b c =
    compare_evidence number_eq b.host.memory_bytes c.host.memory_bytes
field_difference cpu_governor b c = compare_evidence text_eq b.host.cpu_governor c.host.cpu_governor
field_difference build_source_revision b c =
    compare_evidence text_eq b.build.source_revision c.build.source_revision
field_difference build_target b c = compare_evidence text_eq b.build.target c.build.target
field_difference build_profile b c = compare_evidence text_eq b.build.profile c.build.profile
field_difference build_features b c = compare_evidence texts_eq b.build.features c.build.features
field_difference build_toolchain b c = compare_evidence text_eq b.build.toolchain c.build.toolchain

pub record CompatibilityMismatch : Type 0 where
  pub field : EnvironmentField
  pub reason : String

unfoldable pub compare_field :
    EnvironmentField → EnvironmentProbe → EnvironmentProbe → Option CompatibilityMismatch
unfolding field_difference
compare_field f b c = elim (field_difference f b c) [
  | none ↦ none
  | some detail ↦ some (record { field = f; reason = cat (name f) (cat ": " detail) })
]

-- `filter_map` over the ordered set of required fields.
unfoldable pub compatibility_mismatches :
    List EnvironmentField → EnvironmentProbe → EnvironmentProbe → List CompatibilityMismatch
compatibility_mismatches [] b c = []
compatibility_mismatches (f ∷ fs) b c =
    let rest = compatibility_mismatches fs b c in
    elim (compare_field f b c) [ none ↦ rest | some mismatch ↦ mismatch ∷ rest ]
