-- ===== src/Bench/Env/Evidence.antt =====
-- bench/env.rs: `DeclaredHost::new`, and the build evidence that `BuildEnvironment::from` takes from
-- the identity of a build.
use sim_tooling.Support.{
  String, ◌≡◌, ◌↔◌, false, List, [], ◌∷◌, ◌++◌, Result, ok, err, if◌then◌else◌, text_order, arith,
}
use sim_tooling.Support.Text.{is_blank, trim}
use sim_tooling.Support.Sorting.{sort, dedup, dedup-sort_ext}
use sim_tooling.Bench.Spec.{BuildIdentity}
use sim_tooling.Bench.Spec.Canonical.{SameBuild}
use sim_tooling.Bench.Env.{DeclaredHost, BuildEnvironment, ProbeEvidence, available, unavailable}

-- The fields that `required` finds blank.
pub blank_field : String → String → List String
blank_field field value = if is_blank value then field ∷ [] else []

pub declare_host : String → String → Result (List String) DeclaredHost
unfolding blank_field
declare_host inventory_id ssh_host =
    elim (blank_field "host.inventory_id" inventory_id ++ blank_field "host.ssh_host" ssh_host) [
      | [] ↦ ok (record { inventory_id = inventory_id; ssh_host = ssh_host })
      | e ∷ es ↦ err (e ∷ es)
    ]

pub evidence_string : String → String → ProbeEvidence String
evidence_string value reason = if is_blank value then unavailable reason else available (trim value)

pub build_evidence : BuildIdentity → BuildEnvironment
build_evidence build = record {
  source_revision = evidence_string build.source_revision "build source revision is empty";
  target = evidence_string build.target "build target is empty";
  profile = evidence_string build.profile "build profile is empty";
  features = available (dedup (sort build.features));
  toolchain = evidence_string build.toolchain "build toolchain is empty";
}

-- `DeclaredHost::new` returns a host exactly when neither of its texts is blank, and the host is
-- those texts.
pub declare_host_iff :
    (inventory_id ssh_host : String) (host : DeclaredHost)
    → (declare_host inventory_id ssh_host ≡ ok host) ↔ (
        (is_blank inventory_id ≡ false)
        × (is_blank ssh_host ≡ false)
        × (host ≡ record { inventory_id = inventory_id; ssh_host = ssh_host }))
unfolding declare_host
declare_host_iff inventory_id ssh_host host = ground arith

-- The build evidence is the same for two identities that list the same features in other orders or
-- repeatedly.
pub build_evidence_canonical :
    (b c : BuildIdentity) → SameBuild b c → build_evidence b ≡ build_evidence c
unfolding build_evidence
build_evidence_canonical b c h = cc (
  h.source_revision,
  h.target,
  h.profile,
  dedup-sort_ext b.features c.features h.features,
  h.toolchain,
)
