-- ===== src/Vault/Commit/Progress.antt =====
-- When a commit is refused, and that it succeeds where nothing is in its way.
use sim_tooling.Support.{
  ◌≡◌, ◌≢◌, refl, sym, subst, ap, ◌∙◌, inl, inr, Bool, true, false, none, List, [], ◌∷◌, ok, err,
  Bool-cases, Option-cases, Result-cases,
}
use sim_tooling.Vault.{Codecs, changed_after_preflight}
use sim_tooling.Vault.Artifacts.{GeneratedArtifact}
use sim_tooling.Vault.Manifest.{VaultManifest, VaultManifestSeed}
use sim_tooling.Vault.Tree.{
  Slot, absent, hidden, holds, reject_interrupted_path, is_dir, ensure_namespace_ancestors,
  metadata_if_exists,
}
use sim_tooling.Vault.Namespace.{
  ManagedNamespace, Disk, CurrentNamespace, snapshot, inspect_current_inner, inspect_current,
  expected_manifest,
}
use sim_tooling.Vault.Namespace.Inspection.{
  IsReady, Describes, inspect_current_inner-Describes, inspect_current_inner_complete,
}
use sim_tooling.Vault.Action.{reading, >>=-outcome}
use sim_tooling.Vault.Commit.{
  Io, no_fault, CommitFault, PendingNamespaceTransaction, create_parent, made_all, new_directories,
  set_ancestors, set_stage, write_stage, write_files, staged, verify_written_namespace,
  verify_snapshot, install, exchange, move_to_recovery, move_into_place, remove_recovery, stands_at,
  commit_inner, commit, preflight, same_snapshot,
}
use sim_tooling.Vault.Commit.Installed.{same_snapshot-eq, same_snapshot_refl}
use sim_tooling.Vault.Commit.Completion.{preflight-eq-ok}

-- Every call succeeds.
unfoldable pub no_failures : Io
no_failures = record {
  create_parent_fails = none;
  write_stage_fails = none;
  rename_target_fails = false;
  rename_stage_fails = false;
  remove_recovery_fails = none;
}

new_directories-found :
    (slots : List Slot) → ensure_namespace_ancestors (new_directories slots) ≡ ok tt
unfolding ensure_namespace_ancestors metadata_if_exists
new_directories-found [] = refl
new_directories-found (slot ∷ slots) = new_directories-found slots

made_all-found :
    (slots : List Slot)
    → ensure_namespace_ancestors slots ≡ ok tt
    → ensure_namespace_ancestors (made_all slots) ≡ ok tt
unfolding ensure_namespace_ancestors metadata_if_exists
made_all-found [] h = refl
made_all-found (absent ∷ slots) h = new_directories-found slots
made_all-found (hidden ∷ slots) h = cc
made_all-found (holds node ∷ slots) h = elim (Bool-cases (is_dir node)) [
  | inl e ↦ rw e (made_all-found slots (rw e at h))
  | inr e ↦ cc (rw e at h)
]

module _ (codecs : Codecs) where
  -- Where the inspection before a commit finds another snapshot than `preflight` took, the commit is
  -- refused as changed and leaves the disk as it is, however its calls would go.
  pub commit_inner-changed :
      (io : Io) (fault : CommitFault) (pending : PendingNamespaceTransaction) (disk : Disk)
      (current : CurrentNamespace)
      → inspect_current_inner codecs pending.expected false true disk ≡ ok current
      → snapshot current ≢ pending.snapshot
      → commit_inner codecs io fault pending disk ≡ (err changed_after_preflight, disk)
  unfolding commit_inner verify_snapshot
  commit_inner-changed io fault pending disk current seen differs =
      elim (Bool-cases (same_snapshot (snapshot current) pending.snapshot)) [
        | inl same ↦ absurd (differs (same_snapshot-eq (snapshot current) pending.snapshot same))
        | inr other ↦
            let refused : verify_snapshot codecs pending.expected pending.snapshot false disk
                ≡ err changed_after_preflight =
              rw (verify_snapshot, seen, other) refl in
            rw (commit_inner, refused) refl
      ]

  verify_snapshot_of_seen :
      (expected : VaultManifest) (allow_stage : Bool) (disk : Disk) (current : CurrentNamespace)
      → IsReady allow_stage disk
      → Describes codecs expected disk.target current
      → verify_snapshot codecs expected (snapshot current) allow_stage disk ≡ ok tt
  unfolding verify_snapshot
  verify_snapshot_of_seen expected allow_stage disk current ready described =
      rw
        (
          verify_snapshot,
          inspect_current_inner_complete codecs expected allow_stage disk current ready described,
          same_snapshot_refl (snapshot current),
        )
        refl

  write_files-stage :
      (io : Io) (artifacts : List GeneratedArtifact) (manifest : VaultManifest) (disk : Disk)
      → (slot : Slot) × ((write_files codecs io artifacts manifest disk).1 ≡ set_stage slot disk)
  unfolding write_files
  write_files-stage io artifacts manifest disk = elim (Option-cases io.write_stage_fails) [
    | inr (left, e) ↦ (left, rw (write_files, e) refl)
    | inl e ↦ elim (Result-cases (staged codecs artifacts manifest disk.stage)) [
      | inl (slot, f) ↦ (slot, rw (write_files, e, f) refl)
      | inr ((x, left), f) ↦ (left, rw (write_files, e, f) refl)
    ]
  ]

  -- A stage that was written has been verified, and nothing else has changed.
  write_stage-eq-ok :
      (io : Io) (artifacts : List GeneratedArtifact) (manifest : VaultManifest) (disk disk' : Disk)
      → write_stage codecs io artifacts manifest disk ≡ (ok tt, disk')
      → ((slot : Slot) × (disk' ≡ set_stage slot disk))
        × (verify_written_namespace codecs manifest disk'.stage ≡ ok tt)
  unfolding write_stage
  write_stage-eq-ok io artifacts manifest disk disk' =
      >>=-outcome
        (λ o.
          o ≡ (ok tt, disk')
          → ((slot : Slot) × (disk' ≡ set_stage slot disk))
            × (verify_written_namespace codecs manifest disk'.stage ≡ ok tt))
        (write_files codecs io artifacts manifest)
        (λ _. reading λ d. verify_written_namespace codecs manifest d.stage) disk (λ e d h k. cc)
        λ _ d h k.
          let same : d ≡ disk' = ap (λ o. o.1) k in
          let (slot, only) = write_files-stage io artifacts manifest disk in
          (
            (slot, sym same ∙ (ap (λ o. o.1) (sym h) ∙ only)),
            subst (λ d. verify_written_namespace codecs manifest d.stage ≡ ok tt) same
                (ap (λ o. o.0) k),
          )

  exchange_total :
      (expected : VaultManifest) (had : Bool) (disk : Disk)
      → verify_written_namespace codecs expected disk.stage ≡ ok tt
      → (exchange codecs no_failures no_fault expected had disk).0 ≡ ok tt
  unfolding exchange install move_to_recovery move_into_place remove_recovery no_failures
  exchange_total expected true disk verified = rw verified refl
  exchange_total expected false disk verified = rw verified refl

  -- The disk once the parent of the target has been created.
  abbrev pub with_parent : Disk → Disk
  with_parent disk = set_ancestors (made_all disk.ancestors) disk

  reject_interrupted_path_absent :
      (slot : Slot) → slot ≡ absent → reject_interrupted_path slot ≡ ok tt
  unfolding reject_interrupted_path metadata_if_exists
  reject_interrupted_path_absent slot h = rw h refl

  create_parent_done : (disk : Disk) → create_parent no_failures disk ≡ (ok tt, with_parent disk)
  unfolding create_parent no_failures
  create_parent_done disk = refl

  commit_total_of_seen :
      (expected : VaultManifest) (artifacts : List GeneratedArtifact) (current : CurrentNamespace)
      (disk disk' : Disk)
      → IsReady false disk
      → Describes codecs expected disk.target current
      → write_stage codecs no_failures artifacts expected (with_parent disk) ≡ (ok tt, disk')
      → (commit codecs no_failures
          (record { expected = expected; artifacts = artifacts; snapshot = snapshot current })
          disk).0
        ≡ ok tt
  unfolding commit commit_inner
  commit_total_of_seen expected artifacts current disk disk' ready described written =
      let ((slot, only), verified) =
        write_stage-eq-ok no_failures artifacts expected (with_parent disk) disk' written in
      let no_stage : disk.stage ≡ absent = elim ready.no_stage [
        | inl allowed ↦ cc
        | inr nothing ↦ nothing
      ] in
      let ready' : IsReady true disk' = subst (IsReady true) (sym only) (record {
        root_found = ready.root_found;
        ancestors_found = made_all-found disk.ancestors ready.ancestors_found;
        no_stage = inl refl;
        no_recovery = ready.no_recovery;
      }) in
      let described' : Describes codecs expected disk'.target current =
        subst (λ d. Describes codecs expected d.target current) (sym only) described in
      rw
        (
          verify_snapshot_of_seen expected false disk current ready described,
          reject_interrupted_path_absent disk.stage no_stage,
          reject_interrupted_path_absent disk.recovery ready.no_recovery,
          create_parent_done disk,
          written,
          verify_snapshot_of_seen expected true disk' current ready' described',
        )
        (exchange_total expected (stands_at disk'.target) disk' verified)

  -- Where nothing happens between `preflight` and `commit`, every call succeeds and the stage can be
  -- written as the manifest describes it, the commit succeeds.
  pub commit_total :
      (ns : ManagedNamespace) (seed : VaultManifestSeed) (artifacts : List GeneratedArtifact)
      (disk disk' : Disk) (pending : PendingNamespaceTransaction)
      → preflight codecs ns seed artifacts disk ≡ ok pending
      → write_stage codecs no_failures artifacts
          (expected_manifest codecs ns seed artifacts)
          (with_parent disk)
        ≡ (ok tt, disk')
      → (commit codecs no_failures pending disk).0 ≡ ok tt
  unfolding inspect_current
  commit_total ns seed artifacts disk disk' pending planned written =
      let expected : VaultManifest = expected_manifest codecs ns seed artifacts in
      let (current, seen, same) = preflight-eq-ok codecs ns seed artifacts disk pending planned in
      let (ready, described) =
        inspect_current_inner-Describes codecs expected false disk current seen in
      subst (λ p. (commit codecs no_failures p disk).0 ≡ ok tt) (sym same)
        (commit_total_of_seen expected artifacts current disk disk' ready described written)
