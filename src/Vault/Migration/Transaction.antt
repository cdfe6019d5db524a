-- ===== src/Vault/Migration/Transaction.antt =====
-- generated_namespace.rs: the writes of `migrate_v1_inner` in their order.
use sim_tooling.Support.{◌==◌, length, ok, err, if◌then◌else◌}
use sim_tooling.Vault.{Codecs, mismatches, changed_during_migration}
use sim_tooling.Vault.Namespace.{ManagedNamespace, NamespaceDiff}
use sim_tooling.Vault.Action.{Action, reading, done, ◌>>=◌, ◌>>◌}
use sim_tooling.Vault.Commit.{
  write_stage, verify_written_namespace, move_to_recovery, move_into_place, remove_recovery,
}
use sim_tooling.Vault.Migration.{
  MigrationFault, before_stage_write, after_stage_write, after_stage_verify, before_recovery_rename,
  after_recovery_rename, before_live_rename, after_live_rename, before_manifest_readback,
  after_manifest_readback, before_recovery_cleanup, after_recovery_cleanup, migration_fail,
  VaultCodec, MigrationIo, discard_stage, unstage, restore, on_failure,
}
use sim_tooling.Vault.Migration.Source.{
  Source, Planned, current, legacy, MigrationRequest, target_manifest, prepare, verify_staged,
  is_unchanged,
}

module _ (codecs : Codecs) (v : VaultCodec) (ns : ManagedNamespace)
    (request : MigrationRequest v) where
  abbrev pub failpoint : MigrationFault → MigrationFault → Action (Unit {0})
  failpoint fault point = reading λ _. migration_fail fault point

  -- A staged bundle without mismatches.
  unfoldable pub accept_stage : MigrationIo → Action (Unit {0})
  accept_stage m = do
    found ← reading λ disk. verify_staged codecs v ns request disk.stage
    if found == 0 then done else discard_stage m >> (reading λ _. err (mismatches found))

  -- A source that is as it was.
  unfoldable pub accept_source : MigrationIo → Source → Action (Unit {0})
  accept_source m source = do
    same ← reading λ disk. is_unchanged codecs v ns request source disk.target
    if same then done else discard_stage m >> (reading λ _. err changed_during_migration)

  -- From the stage to the last failpoint before the first rename.
  unfoldable pub stage_target : MigrationIo → MigrationFault → Source → Action (Unit {0})
  stage_target m fault source = do
    failpoint fault before_stage_write
    write_stage codecs m.io request.artifacts (target_manifest codecs v ns request)
    failpoint fault after_stage_write
    accept_stage m
    failpoint fault after_stage_verify
    accept_source m source
    failpoint fault before_recovery_rename

  -- What follows the second verification.
  unfoldable pub clean_up : MigrationIo → MigrationFault → Action (Unit {0})
  clean_up m fault = do
    failpoint fault after_manifest_readback
    failpoint fault before_recovery_cleanup
    remove_recovery m.io
    failpoint fault after_recovery_cleanup

  -- What follows the first rename.
  unfoldable pub install_target : MigrationIo → MigrationFault → Action (Unit {0})
  install_target m fault = do
    failpoint fault after_recovery_rename
    failpoint fault before_live_rename
    on_failure (restore m) (move_into_place m.io)
    failpoint fault after_live_rename
    failpoint fault before_manifest_readback
    on_failure (unstage m >> restore m) (
        reading
          λ disk. verify_written_namespace codecs (target_manifest codecs v ns request) disk.target)
    clean_up m fault

  abbrev rewritten : NamespaceDiff
  rewritten = record {
    namespace = ns.namespace_text;
    changed_artifacts = length request.artifacts;
    unchanged_artifacts = 0;
  }

  unfoldable pub rewrite : MigrationIo → MigrationFault → Source → Action (Unit {0})
  rewrite m fault source = do
    stage_target m fault source
    move_to_recovery m.io
    install_target m fault

  abbrev pub migrate_planned : MigrationIo → MigrationFault → Planned → Action NamespaceDiff
  migrate_planned m fault (current diff) = reading λ _. ok diff
  migrate_planned m fault (legacy source) = rewrite m fault source >> (reading λ _. ok rewritten)

  -- `migrate_v1_inner`
  unfoldable pub migrate_v1_inner : MigrationIo → MigrationFault → Action NamespaceDiff
  migrate_v1_inner m fault = do
    planned ← reading (prepare codecs v ns request fault)
    migrate_planned m fault planned
