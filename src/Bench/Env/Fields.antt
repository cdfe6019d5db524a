-- ===== src/Bench/Env/Fields.antt =====
-- bench/env.rs: `EnvironmentField`, its names, and the policy that names the required fields.
pub mod Names
use sim_tooling.Support.{
  ℕ, zero, suc, ◌++◌, String, Bool, ◌≡◌, refl, ap, ◌∙◌, sym, ◌↔◌, Option, none, some, some, List,
  [], ◌∷◌, ltb, ltb_irrefl, ltb_trans, ltb_connected, Order, same_key, same_key_iff, text_order,
  Result, ok, err, if◌then◌else◌, arith,
}
use sim_tooling.Support.Sets

pub data EnvironmentField : Type 0 where
  host_inventory_id host_ssh_host operating_system architecture cpu_model : EnvironmentField
  logical_cpus memory_bytes cpu_governor build_source_revision build_target : EnvironmentField
  build_profile build_features build_toolchain : EnvironmentField

pub name : EnvironmentField → String
name host_inventory_id = "host.inventory-id"
name host_ssh_host = "host.ssh-host"
name operating_system = "host.operating-system"
name architecture = "host.architecture"
name cpu_model = "host.cpu-model"
name logical_cpus = "host.logical-cpus"
name memory_bytes = "host.memory-bytes"
name cpu_governor = "host.cpu-governor"
name build_source_revision = "build.source-revision"
name build_target = "build.target"
name build_profile = "build.profile"
name build_features = "build.features"
name build_toolchain = "build.toolchain"

-- `derive(Ord)` orders the variants as they are declared.
pub rank : EnvironmentField → ℕ
rank host_inventory_id = 0
rank host_ssh_host = 1
rank operating_system = 2
rank architecture = 3
rank cpu_model = 4
rank logical_cpus = 5
rank memory_bytes = 6
rank cpu_governor = 7
rank build_source_revision = 8
rank build_target = 9
rank build_profile = 10
rank build_features = 11
rank build_toolchain = 12

-- The array that `field_named` searches.
abbrev pub all_fields : List EnvironmentField
all_fields =
    host_inventory_id ∷ host_ssh_host ∷ operating_system ∷ architecture ∷ cpu_model ∷ logical_cpus
    ∷ memory_bytes ∷ cpu_governor ∷ build_source_revision ∷ build_target ∷ build_profile
    ∷ build_features ∷ build_toolchain ∷ []

abbrev at : List EnvironmentField → ℕ → EnvironmentField
at [] n = host_inventory_id
at (f ∷ fs) zero = f
at (f ∷ fs) (suc n) = at fs n

at-rank : (f : EnvironmentField) → at all_fields (rank f) ≡ f
unfolding rank
at-rank host_inventory_id = refl
at-rank _ = refl

pub rank-injective : (f g : EnvironmentField) → rank f ≡ rank g → f ≡ g
rank-injective f g h = sym (at-rank f) ∙ (ap (at all_fields) h ∙ at-rank g)

abbrev pub field_lt : EnvironmentField → EnvironmentField → Bool
field_lt f g = ltb (rank f) (rank g)

instance abbrev pub field_order : Order EnvironmentField
field_order = record {
  lt = field_lt;
  lt_irrefl = λ f. ltb_irrefl (rank f);
  lt_trans = λ f g h. ltb_trans (rank f) (rank g) (rank h);
  lt_connected = λ f g h k. rank-injective f g (ltb_connected (rank f) (rank g) h k);
}

pub named_in : List EnvironmentField → String → Option EnvironmentField
named_in [] n = none
named_in (f ∷ fs) n = if same_key (name f) n then some f else named_in fs n

pub field_named : String → Option EnvironmentField
unfolding named_in name
field_named n = named_in all_fields n

-- The loop of `from_required_names`: the set built so far, and the unknown names in their order.
pub collect :
    List EnvironmentField → List String → List String → Result (List String) (List EnvironmentField)
collect required errors [] = elim errors [ [] ↦ ok required | e ∷ es ↦ err (e ∷ es) ]
collect required errors (n ∷ ns) = elim (field_named n) [
  | some field ↦ collect (Sets.insert field required) errors ns
  | none ↦ collect required (errors ++ n ∷ []) ns
]

pub from_required_names : List String → Result (List String) (List EnvironmentField)
unfolding collect
from_required_names = collect [] []

-- `CompatibilityPolicy::requiring`
pub requiring : List EnvironmentField → List EnvironmentField
requiring = Sets.from_list
