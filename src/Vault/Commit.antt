-- ===== src/Vault/Commit.antt =====
-- generated_namespace.rs: `preflight` and the transaction that `commit` runs, with write_stage and
-- verify_written_namespace of generated_namespace/filesystem.rs.
pub mod Safety
pub mod Installed
pub mod Completion
pub mod Progress
use sim_tooling.Support.{
  ℕ, String, Bool, true, false, not, ◌&&◌, ◌||◌, Option, none, some, List, [], ◌∷◌, Result, ok, err,
  refuse_if, if◌then◌else◌, same_key, text_order,
}
use sim_tooling.Support.Maps.{Map}
use sim_tooling.Vault.{
  Bytes, Codecs, VaultError, io_failed, manifest_not_written, manifest_differs, unreadable,
  changed_after_preflight, injected_failure,
}
use sim_tooling.Vault.Paths.{components}
use sim_tooling.Vault.Artifacts.{GeneratedArtifact}
use sim_tooling.Vault.Manifest.{VaultManifest, VaultManifestSeed, manifest_file}
use sim_tooling.Vault.Manifest.Document.{from_bytes, to_bytes}
use sim_tooling.Vault.Tree.{
  Node, file, directory, Entries, empty, entry, Slot, absent, hidden, holds,
  reject_interrupted_path, read_manifest_bytes, manifest_slot, collect_file_digests,
  validate_owned_files, child,
}
use sim_tooling.Vault.Namespace.{
  ManagedNamespace, Disk, NamespaceSnapshot, snapshot, names, same_map, same_manifest,
  expected_manifest, inspect_current, inspect_current_inner,
}
use sim_tooling.Vault.Action.{Action, reading, done, ◌>>=◌, ◌>>◌}

pub data CommitFault : Type 0 where
  no_fault after_recovery_rename : CommitFault

pub record PendingNamespaceTransaction : Type 0 where
  pub expected : VaultManifest
  pub artifacts : List GeneratedArtifact
  pub snapshot : NamespaceSnapshot

-- How the calls that change the disk go. A call that fails may leave something behind: what it
-- leaves of the ancestors, of the stage or of the recovery copy stands here.
pub record Io : Type 0 where
  pub create_parent_fails : Option (List Slot)
  pub write_stage_fails : Option Slot
  pub rename_target_fails : Bool
  pub rename_stage_fails : Bool
  pub remove_recovery_fails : Option Slot

abbrev pub set_stage : Slot → Disk → Disk
set_stage slot disk = record {
  root = disk.root;
  ancestors = disk.ancestors;
  target = disk.target;
  stage = slot;
  recovery = disk.recovery;
}

abbrev pub set_ancestors : List Slot → Disk → Disk
set_ancestors slots disk = record {
  root = disk.root;
  ancestors = slots;
  target = disk.target;
  stage = disk.stage;
  recovery = disk.recovery;
}

abbrev pub set_recovery : Slot → Disk → Disk
set_recovery slot disk = record {
  root = disk.root;
  ancestors = disk.ancestors;
  target = disk.target;
  stage = disk.stage;
  recovery = slot;
}

-- `fs::create_dir_all` of the parent of the target: nothing stands below what is absent, so that all
-- directories from the first absent one on are new.
abbrev pub new_directories : List Slot → List Slot
new_directories [] = []
new_directories (_ ∷ slots) = holds (directory empty) ∷ new_directories slots

abbrev pub made_all : List Slot → List Slot
made_all [] = []
made_all (absent ∷ slots) = holds (directory empty) ∷ new_directories slots
made_all (hidden ∷ slots) = hidden ∷ made_all slots
made_all (holds node ∷ slots) = holds node ∷ made_all slots

unfoldable pub create_parent : Io → Action (Unit {0})
create_parent io disk = elim io.create_parent_fails [
  | none ↦ (ok tt, set_ancestors (made_all disk.ancestors) disk)
  | some left ↦ (err io_failed, set_ancestors left disk)
]

-- A directory after its entry with a name has been replaced or added.
unfoldable pub put_child : String → Node → Entries → Entries
put_child name node empty = entry name node empty
put_child name node (entry other old rest) =
    let later = put_child name node rest in
    if same_key name other then entry other node rest else entry other old later

-- `fs::create_dir_all` of the parent and `fs::write` of the path; `none` where the path, or one of
-- its parents, is taken by something else.
unfoldable pub write_at : List String → Bytes → Entries → Option Entries
write_at [] bytes entries = none
write_at (name ∷ []) bytes entries = elim (child name entries) [
  | absent ↦ some (put_child name (file (some bytes)) entries)
  | holds (file _) ↦ some (put_child name (file (some bytes)) entries)
  | _ ↦ none
]
write_at (name ∷ part ∷ parts) bytes entries =
    let inside : Entries → Option Entries = write_at (part ∷ parts) bytes in
    elim (child name entries) [
      | absent ↦ elim (inside empty) [
        | none ↦ none
        | some es ↦ some (put_child name (directory es) entries)
      ]
      | holds (directory old) ↦ elim (inside old) [
        | none ↦ none
        | some es ↦ some (put_child name (directory es) entries)
      ]
      | _ ↦ none
    ]

-- The loop over the artifacts: the directory that it leaves, as an error where a write fails.
unfoldable pub write_artifacts : List GeneratedArtifact → Entries → Result Entries Entries
write_artifacts [] entries = ok entries
write_artifacts (a ∷ rest) entries = elim (write_at (names (components a.path)) a.bytes entries) [
  | none ↦ err entries
  | some entries' ↦ write_artifacts rest entries'
]

-- `fs::create_dir_all(stage)`
abbrev pub created : Slot → Option Entries
created absent = some empty
created (holds (directory entries)) = some entries
created _ = none

-- The derived `PartialEq` of `NamespaceSnapshot`.
unfoldable pub same_snapshot : NamespaceSnapshot → NamespaceSnapshot → Bool
same_snapshot NamespaceSnapshot.missing NamespaceSnapshot.missing = true
same_snapshot NamespaceSnapshot.empty_directory NamespaceSnapshot.empty_directory = true
same_snapshot (NamespaceSnapshot.owned d f) (NamespaceSnapshot.owned e g) =
    same_key d e && same_map (λ a b. same_key a b) f g
same_snapshot _ _ = false

-- `target.exists()`
abbrev pub stands_at : Slot → Bool
stands_at (holds node) = true
stands_at _ = false

-- `fs::rename(&target, &recovery)`; nothing stands at the recovery path.
unfoldable pub move_to_recovery : Io → Action (Unit {0})
move_to_recovery io disk = if io.rename_target_fails then (err io_failed, disk) else (
  ok tt,
  record {
    root = disk.root;
    ancestors = disk.ancestors;
    target = absent;
    stage = disk.stage;
    recovery = disk.target;
  },
)

-- `fs::rename(&stage, &target)`; nothing stands at the target.
unfoldable pub move_into_place : Io → Action (Unit {0})
move_into_place io disk = if io.rename_stage_fails then (err io_failed, disk) else (
  ok tt,
  record {
    root = disk.root;
    ancestors = disk.ancestors;
    target = disk.stage;
    stage = absent;
    recovery = disk.recovery;
  },
)

-- `fs::remove_dir_all(&recovery)`
unfoldable pub remove_recovery : Io → Action (Unit {0})
remove_recovery io disk = elim io.remove_recovery_fails [
  | none ↦ (ok tt, set_recovery absent disk)
  | some left ↦ (err io_failed, set_recovery left disk)
]

-- `if had_target { step }`
abbrev pub only_if : Bool → Action (Unit {0}) → Action (Unit {0})
only_if had step disk = if had then step disk else done disk

abbrev pub is_injected : CommitFault → Bool
is_injected no_fault = false
is_injected after_recovery_rename = true

module _ (codecs : Codecs) where
  unfoldable pub verify_written_node : VaultManifest → Node → Result VaultError (Unit {0})
  verify_written_node expected node = elim (read_manifest_bytes (manifest_slot node)) [
    | err e ↦ err e
    | ok none ↦ err manifest_not_written
    | ok (some bytes) ↦ elim (from_bytes codecs bytes) [
      | err e ↦ err e
      | ok manifest ↦
          if not (same_manifest manifest expected)
          then err manifest_differs
          else elim (collect_file_digests codecs node) [
            | err e ↦ err e
            | ok files ↦ validate_owned_files manifest.artifacts files
          ]
    ]
  ]

  unfoldable pub verify_written_namespace : VaultManifest → Slot → Result VaultError (Unit {0})
  verify_written_namespace expected (holds node) = verify_written_node expected node
  verify_written_namespace expected absent = err manifest_not_written
  verify_written_namespace expected hidden = err unreadable

  -- The stage with the artifacts and the manifest; where a step fails, what it has written.
  unfoldable pub staged :
      List GeneratedArtifact → VaultManifest → Slot → Result (VaultError × Slot) Slot
  staged artifacts manifest slot = elim (created slot) [
    | none ↦ err (io_failed, slot)
    | some start ↦ elim (write_artifacts artifacts start) [
      | err entries ↦ err (io_failed, holds (directory entries))
      | ok entries ↦ elim (to_bytes codecs manifest) [
        | err e ↦ err (e, holds (directory entries))
        | ok bytes ↦ elim (write_at (manifest_file ∷ []) bytes entries) [
          | none ↦ err (io_failed, holds (directory entries))
          | some entries' ↦ ok (holds (directory entries'))
        ]
      ]
    ]
  ]

  unfoldable pub write_files : Io → List GeneratedArtifact → VaultManifest → Action (Unit {0})
  write_files io artifacts manifest disk = elim io.write_stage_fails [
    | some left ↦ (err io_failed, set_stage left disk)
    | none ↦ elim (staged artifacts manifest disk.stage) [
      | err (e, left) ↦ (err e, set_stage left disk)
      | ok slot ↦ (ok tt, set_stage slot disk)
    ]
  ]

  unfoldable pub write_stage : Io → List GeneratedArtifact → VaultManifest → Action (Unit {0})
  write_stage io artifacts manifest = do
    write_files io artifacts manifest
    reading λ disk. verify_written_namespace manifest disk.stage

  unfoldable pub verify_snapshot :
      VaultManifest → NamespaceSnapshot → Bool → Disk → Result VaultError (Unit {0})
  verify_snapshot expected taken allow_stage disk =
      elim (inspect_current_inner codecs expected allow_stage true disk) [
        | err e ↦ err e
        | ok current ↦
            refuse_if (not (same_snapshot (snapshot current) taken)) changed_after_preflight
      ]

  -- `ManagedNamespace::preflight`
  unfoldable pub preflight :
      ManagedNamespace
      → VaultManifestSeed
      → List GeneratedArtifact
      → Disk
      → Result VaultError PendingNamespaceTransaction
  preflight ns seed artifacts disk =
      elim (inspect_current codecs (expected_manifest codecs ns seed artifacts) disk) [
        | err e ↦ err e
        | ok current ↦ ok (record {
          expected = expected_manifest codecs ns seed artifacts;
          artifacts = artifacts;
          snapshot = snapshot current;
        })
      ]

  -- From the injected failure on.
  unfoldable pub install : Io → CommitFault → VaultManifest → Bool → Action (Unit {0})
  install io fault expected had_target = do
    reading λ disk. refuse_if (is_injected fault) injected_failure
    move_into_place io
    reading λ disk. verify_written_namespace expected disk.target
    only_if had_target (remove_recovery io)

  -- From the first rename on.
  unfoldable pub exchange : Io → CommitFault → VaultManifest → Bool → Action (Unit {0})
  exchange io fault expected had_target = do
    only_if had_target (move_to_recovery io)
    install io fault expected had_target

  -- `commit_inner`
  unfoldable pub commit_inner : Io → CommitFault → PendingNamespaceTransaction → Action (Unit {0})
  commit_inner io fault pending = do
    reading (verify_snapshot pending.expected pending.snapshot false)
    reading λ disk. reject_interrupted_path disk.stage
    reading λ disk. reject_interrupted_path disk.recovery
    create_parent io
    write_stage io pending.artifacts pending.expected
    reading (verify_snapshot pending.expected pending.snapshot true)
    λ disk. exchange io fault pending.expected (stands_at disk.target) disk

  -- `commit`
  unfoldable pub commit : Io → PendingNamespaceTransaction → Action (Unit {0})
  commit io pending = commit_inner io no_fault pending
