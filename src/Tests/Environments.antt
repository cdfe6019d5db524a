-- ===== src/Tests/Environments.antt =====
-- Runs of the environment comparison.
use sim_tooling.Support.{
  false, ℕ, text_order, String, ◌≡◌, ◌≢◌, ◌⊎◌, ◌↔◌, some, List, [], ◌∷◌, All, ok, err,
}
use sim_tooling.Support.Sets
use sim_tooling.Support.Text.{is_blank}
use sim_tooling.Bench.Env.Evidence.{declare_host, declare_host_iff}
use sim_tooling.Bench.Env.{
  DeclaredHost, EnvironmentProbe, available, unavailable, compatibility_mismatches,
}
use sim_tooling.Bench.Env.Admission.{Agrees, compatibility_mismatches_iff}
use sim_tooling.Bench.Env.Fields.{
  EnvironmentField, host_inventory_id, logical_cpus, cpu_governor, name, field_named,
  from_required_names, field_order,
}
use sim_tooling.Bench.Env.Fields.Names.{unknown, field_named_iff, from_required_names_lem}

abbrev pub probed : ℕ → EnvironmentProbe
probed cpus = record {
  host = record {
    host = record { inventory_id = "bench-1"; ssh_host = "bench.example" };
    operating_system = available "linux";
    architecture = available "x86_64";
    cpu_model = available "model";
    logical_cpus = available cpus;
    memory_bytes = available 1024;
    cpu_governor = unavailable "no governor";
  };
  build = record {
    source_revision = available "abc";
    target = available "x86_64-unknown-linux-gnu";
    profile = available "release";
    features = available ("fast" ∷ []);
    toolchain = available "stable";
  };
}

compatibility_mismatches_example :
    (compatibility_mismatches (host_inventory_id ∷ logical_cpus ∷ []) (probed 4) (probed 8) ≡ [])
    ↔ All (λ f. Agrees f (probed 4) (probed 8)) (host_inventory_id ∷ logical_cpus ∷ [])
compatibility_mismatches_example =
    compatibility_mismatches_iff (probed 4) (probed 8) (host_inventory_id ∷ logical_cpus ∷ [])

field_named_example :
    (field_named "host.cpu-governor" ≡ some cpu_governor)
    ↔ (name cpu_governor ≡ "host.cpu-governor")
field_named_example = field_named_iff "host.cpu-governor" cpu_governor

abbrev names : List String
names = "host.logical-cpus" ∷ "host.name" ∷ []

from_required_names_example :
    ((unknown names ≡ [])
      × ((required : List EnvironmentField) × (from_required_names names ≡ ok required)
          × Sets.IsSorted required
          × ((f : EnvironmentField) → Sets.contains required f ≡ Sets.contains names (name f))))
    ⊎ ((unknown names ≢ []) × (from_required_names names ≡ err (unknown names)))
from_required_names_example = from_required_names_lem names

abbrev declared : DeclaredHost
declared = record { inventory_id = "bench-1"; ssh_host = "bench.example" }

declare_host_iff_example : (declare_host "bench-1" "bench.example" ≡ ok declared) ↔ (
    (is_blank "bench-1" ≡ false)
    × (is_blank "bench.example" ≡ false)
    × (declared ≡ record { inventory_id = "bench-1"; ssh_host = "bench.example" }))
declare_host_iff_example = declare_host_iff "bench-1" "bench.example" declared
