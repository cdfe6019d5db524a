-- ===== src/Vault/Migration.antt =====
-- generated_namespace.rs: `migrate_v1_inner`, which replaces a namespace under a v1 manifest.
pub mod Source
pub mod Transaction
pub mod Safety
use sim_tooling.Support.{
  ℕ, suc, String, Bool, true, false, not, ◌&&◌, ◌||◌, ◌==◌, Option, none, some, List, [], ◌∷◌,
  length, Result, ok, err, ok_or, refuse_if, if◌then◌else◌, same_key, text_order,
}
use sim_tooling.Support.Maps.{Map, keys}
use sim_tooling.Support.Text.{split}
use sim_tooling.Vault.{
  Bytes, Codecs, VaultError, no_manifest, already_v2, other_namespace, other_profile,
  other_granularity, other_index, unsupported_granularity, unknown_profile, io_failed,
  unverified_legacy, refresh_failed, unverified_stage, mismatches, changed_during_migration,
  injected_failure,
}
use sim_tooling.Vault.Paths.{components}
use sim_tooling.Vault.Artifacts.{GeneratedArtifact}
use sim_tooling.Vault.Manifest.{
  VaultManifest, VaultManifestSeed, LegacyVaultManifest, sha256_digest,
}
use sim_tooling.Vault.Manifest.Document.{from_bytes, legacy_from_bytes}
use sim_tooling.Vault.Tree.{
  Node, file, directory, Entries, Slot, absent, holds, child, ensure_vault_root,
  ensure_namespace_ancestors, reject_interrupted_path, read_manifest_bytes, manifest_slot,
  collect_file_digests, validate_owned_files,
}
use sim_tooling.Vault.Namespace.{
  ManagedNamespace, Disk, CurrentNamespace, owned, NamespaceDiff, names, same_map, same_manifest,
  expected_manifest, inspect_current,
}
use sim_tooling.Vault.Action.{Outcome, Action, reading, done, ◌>>=◌, ◌>>◌}
use sim_tooling.Vault.Commit.{
  Io, set_stage, write_stage, verify_written_namespace, move_to_recovery, move_into_place,
  remove_recovery,
}

pub data MigrationFault : Type 0 where
  no_fault before_manifest_read after_manifest_read after_source_validation after_legacy_verify
        before_stage_write after_stage_write after_stage_verify before_recovery_rename
        after_recovery_rename before_live_rename after_live_rename before_manifest_readback
        after_manifest_readback before_recovery_cleanup after_recovery_cleanup :
      MigrationFault

pub data Granularity : Type 0 where
  compact full : Granularity

-- What the code calls of sim_codec_index_vault and sim_index_vault_core. The verification of a staged
-- bundle gives the number of its mismatches.
pub record VaultCodec : Type 1 where
  pub Profile : Type 0
  pub Projection : Type 0
  pub Bundle : Type 0
  pub granularity : Projection → Granularity
  pub resolve_legacy_profile : String → Option Profile
  pub verify_legacy_v1 : Profile → Granularity → List (String × Bytes) → Projection → Bool
  pub entries : Bundle → List (String × Bytes)
  pub with_bytes : Bundle → List Bytes → Bundle
  pub refresh_bundle_identities : Bundle → Option Bundle
  pub verify_v2 : Bundle → Projection → Option ℕ

abbrev pub rank : MigrationFault → ℕ
rank no_fault = 0
rank before_manifest_read = 1
rank after_manifest_read = 2
rank after_source_validation = 3
rank after_legacy_verify = 4
rank before_stage_write = 5
rank after_stage_write = 6
rank after_stage_verify = 7
rank before_recovery_rename = 8
rank after_recovery_rename = 9
rank before_live_rename = 10
rank after_live_rename = 11
rank before_manifest_readback = 12
rank after_manifest_readback = 13
rank before_recovery_cleanup = 14
rank after_recovery_cleanup = 15

unfoldable pub migration_fail : MigrationFault → MigrationFault → Result VaultError (Unit {0})
migration_fail actual point = refuse_if (rank actual == rank point) injected_failure

-- Beside the calls of a commit: what removing the stage leaves, and the renames that undo.
pub record MigrationIo : Type 0 where
  pub io : Io
  pub discarded_stage : Slot
  pub unstage_fails : Bool
  pub restore_fails : Bool

-- `let _ = fs::remove_dir_all(&self.stage)`
abbrev pub discard_stage : MigrationIo → Action (Unit {0})
discard_stage m disk = (ok tt, set_stage m.discarded_stage disk)

-- `let _ = fs::rename(&self.target, &self.stage)`
unfoldable pub unstage : MigrationIo → Action (Unit {0})
unstage m disk = if m.unstage_fails then (ok tt, disk) else (
  ok tt,
  record {
    root = disk.root;
    ancestors = disk.ancestors;
    target = absent;
    stage = disk.target;
    recovery = disk.recovery;
  },
)

abbrev pub is_absent : Slot → Bool
is_absent absent = true
is_absent _ = false

-- `let _ = fs::rename(&self.recovery, &self.target)`, which fails where something stands.
unfoldable pub restore : MigrationIo → Action (Unit {0})
restore m disk = if m.restore_fails || not (is_absent disk.target) then (ok tt, disk) else (
  ok tt,
  record {
    root = disk.root;
    ancestors = disk.ancestors;
    target = disk.recovery;
    stage = disk.stage;
    recovery = absent;
  },
)

-- The outcome of a step, after the cleanup where it failed.
abbrev pub handled : Action (Unit {0}) → Outcome (Unit {0}) → Outcome (Unit {0})
handled cleanup (ok _, disk) = (ok tt, disk)
handled cleanup (err e, disk) = (err e, (cleanup disk).1)

abbrev pub on_failure : Action (Unit {0}) → Action (Unit {0}) → Action (Unit {0})
on_failure cleanup step disk = handled cleanup (step disk)

-- `fs::read(root.join(path))`
unfoldable pub read_at : List String → Slot → Option Bytes
read_at [] (holds (file content)) = content
read_at (name ∷ rest) (holds (directory entries)) = read_at rest (child name entries)
read_at _ _ = none

unfoldable pub read_all : List String → Slot → Option (List (String × Bytes))
read_all [] slot = some []
read_all (path ∷ rest) slot = elim (read_at (names (components path)) slot) [
  | none ↦ none
  | some bytes ↦ elim (read_all rest slot) [
    | none ↦ none
    | some entries ↦ some ((path, bytes) ∷ entries)
  ]
]

abbrev pub paths : List (String × Bytes) → List String
paths [] = []
paths ((path, bytes) ∷ rest) = path ∷ paths rest

abbrev pub contents : List (String × Bytes) → List Bytes
contents [] = []
contents ((path, bytes) ∷ rest) = bytes ∷ contents rest

unfoldable pub parse_granularity : String → Result VaultError Granularity
parse_granularity text =
    if same_key text "compact"
    then ok compact
    else if same_key text "full"
    then ok full
    else err (unsupported_granularity text)

abbrev pub same_granularity : Granularity → Granularity → Bool
same_granularity compact compact = true
same_granularity full full = true
same_granularity _ _ = false
