-- ===== src/Vault/Namespace.antt =====
-- generated_namespace.rs: `ManagedNamespace` with `open`, `plan`, `diff`, `check` and the inspection
-- of what stands on the disk.
pub mod Equality
pub mod Inspection
pub mod Staleness
use Prim.Native.String.{◌++◌ as ◌<>◌}
use sim_tooling.Support.{
  ℕ, String, ◌+◌, ◌-◌, Bool, true, false, not, ◌&&◌, ◌||◌, ◌==◌, Option, none, some, List, [], ◌∷◌,
  ◌++◌, length, Result, ok, err, ◌>>=◌, ◌>>◌, ok_or, refuse_if, if◌then◌else◌, same_key, text_order,
}
use sim_tooling.Support.Maps
use sim_tooling.Support.Maps.{Map, keys}
use sim_tooling.Support.Sorting
use sim_tooling.Vault.{
  Codecs, VaultError, empty_root, target_not_a_directory, no_manifest, missing_artifacts,
  stale_namespace,
}
use sim_tooling.Vault.Paths.{
  Component, normal, components, validate_namespace, validate_sibling_name, slash_path,
}
use sim_tooling.Vault.Artifacts.{GeneratedArtifact}
use sim_tooling.Vault.Manifest.{
  VaultManifest, VaultManifestSeed, manifest_file, for_artifacts, sha256_digest, validate_owner,
}
use sim_tooling.Vault.Manifest.Document.{from_bytes}
use sim_tooling.Vault.Tree.{
  Node, Slot, metadata_if_exists, is_dir, reject_interrupted_path, ensure_vault_root,
  ensure_namespace_ancestors, read_manifest_bytes, manifest_slot, collect_file_digests,
  validate_owned_files, validate_owned_paths,
}

-- A path under the vault root is the list of its components.
pub record ManagedNamespace : Type 0 where
  pub vault_root : String
  pub namespace_text : String
  pub target : List String
  pub stage : List String
  pub recovery : List String

abbrev pub names : List Component → List String
names [] = []
names (normal part ∷ cs) = part ∷ names cs
names (_ ∷ cs) = names cs

-- `target.parent()` and `target.file_name()`.
unfoldable pub parent : List String → List String
parent [] = []
parent (part ∷ []) = []
parent (part ∷ next ∷ parts) = part ∷ parent (next ∷ parts)

unfoldable pub file_name : List String → Option String
file_name [] = none
file_name (part ∷ []) = some part
file_name (part ∷ next ∷ parts) = file_name (next ∷ parts)

-- `validate_vault_root`
unfoldable pub validate_vault_root : String → Result VaultError String
validate_vault_root root = do refuse_if (same_key root "") empty_root; ok root

unfoldable pub open_namespace : String → String → Result VaultError ManagedNamespace
open_namespace vault_root namespace = do
  root ← validate_vault_root vault_root
  text ← validate_namespace namespace
  namespace_text ← slash_path text
  leaf ← ok_or (file_name (names (components text))) target_not_a_directory
  validate_sibling_name ("." <> (leaf <> ".sim-stage"))
  validate_sibling_name ("." <> (leaf <> ".sim-recovery"))
  ok (record {
    vault_root = root;
    namespace_text = namespace_text;
    target = names (components text);
    stage = parent (names (components text)) ++ (("." <> (leaf <> ".sim-stage")) ∷ []);
    recovery = parent (names (components text)) ++ (("." <> (leaf <> ".sim-recovery")) ∷ []);
  })

-- What stands at the vault root, at the proper prefixes of the namespace below it, and at the three
-- paths of the namespace.
pub record Disk : Type 0 where
  pub root : Slot
  pub ancestors : List Slot
  pub target : Slot
  pub stage : Slot
  pub recovery : Slot

pub data CurrentNamespace : Type 0 where
  missing empty_directory : CurrentNamespace
  owned : String → VaultManifest → Map String String → CurrentNamespace

-- `manifest_digest` and `files`.
pub data NamespaceSnapshot : Type 0 where
  missing empty_directory : NamespaceSnapshot
  owned : String → Map String String → NamespaceSnapshot

unfoldable pub snapshot : CurrentNamespace → NamespaceSnapshot
snapshot CurrentNamespace.missing = NamespaceSnapshot.missing
snapshot CurrentNamespace.empty_directory = NamespaceSnapshot.empty_directory
snapshot (CurrentNamespace.owned digest manifest files) = NamespaceSnapshot.owned digest files

pub record NamespacePlan : Type 0 where
  pub namespace : String
  pub target : List String
  pub manifest_path : List String
  pub artifact_count : ℕ
  pub byte_count : ℕ

pub record NamespaceDiff : Type 0 where
  pub namespace : String
  pub changed_artifacts : ℕ
  pub unchanged_artifacts : ℕ

pub record NamespaceCheck : Type 0 where
  pub namespace : String
  pub artifact_count : ℕ

-- `==` of two maps, with that of their values.
unfoldable pub same_map {ℓ} : {A : Type ℓ} → (A → A → Bool) → Map String A → Map String A → Bool
same_map same [] [] = true
same_map same [] (_ ∷ _) = false
same_map same (_ ∷ _) [] = false
same_map same ((k, a) ∷ m) ((j, b) ∷ n) = (same_key k j && same a b) && same_map same m n

-- The derived `PartialEq` of `VaultManifest`.
unfoldable pub same_manifest : VaultManifest → VaultManifest → Bool
same_manifest m n =
    same_key m.namespace n.namespace
    && (same_key m.profile n.profile
        && (same_key m.granularity n.granularity
            && (same_key m.index_digest n.index_digest
                && (same_key m.codec n.codec
                    && (same_key m.projection_digest n.projection_digest
                        && (same_key m.bundle_root n.bundle_root
                            && (same_map ◌==◌ m.coverage n.coverage
                                && same_map (λ a b. same_key a b) m.artifacts n.artifacts)))))))

-- `files.get(path) == Some(digest)`
abbrev pub shows : Map String String → String → String → Bool
shows files path digest = elim (Maps.get files path) [
  | none ↦ false
  | some current ↦ same_key current digest
]

-- The paths of the artifacts that the files do not show with their digest.
unfoldable pub outdated : Map String String → Map String String → List String
outdated files [] = []
outdated files ((path, digest) ∷ rest) =
    let later = outdated files rest in if shows files path digest then later else path ∷ later

-- The files that are no artifacts.
unfoldable pub unexpected : Map String String → List String → List String
unexpected artifacts [] = []
unexpected artifacts (path ∷ rest) =
    let later = unexpected artifacts rest in
    if Maps.contains_key artifacts path then later else path ∷ later

unfoldable pub total_bytes : List GeneratedArtifact → ℕ
total_bytes [] = 0
total_bytes (a ∷ rest) = length a.bytes + total_bytes rest

unfoldable pub plan : ManagedNamespace → List GeneratedArtifact → NamespacePlan
plan ns artifacts = record {
  namespace = ns.namespace_text;
  target = ns.target;
  manifest_path = ns.target ++ (manifest_file ∷ []);
  artifact_count = length artifacts;
  byte_count = total_bytes artifacts;
}

module _ (codecs : Codecs) where
  unfoldable pub inspect_target : VaultManifest → Bool → Node → Result VaultError CurrentNamespace
  inspect_target expected validate_bytes node = do
    refuse_if (not (is_dir node)) target_not_a_directory
    manifest_bytes ← read_manifest_bytes (manifest_slot node)
    files ← collect_file_digests codecs node
    elim manifest_bytes [
      | none ↦ elim files [ [] ↦ ok CurrentNamespace.empty_directory | _ ∷ _ ↦ err no_manifest ]
      | some bytes ↦ (do
        manifest ← from_bytes codecs bytes
        validate_owner manifest expected
        if validate_bytes
            then validate_owned_files manifest.artifacts files
            else validate_owned_paths manifest.artifacts files
        ok (CurrentNamespace.owned (sha256_digest codecs bytes) manifest files))
    ]

  unfoldable pub inspect_current_inner :
      VaultManifest → Bool → Bool → Disk → Result VaultError CurrentNamespace
  inspect_current_inner expected allow_stage validate_bytes disk = do
    ensure_vault_root disk.root
    ensure_namespace_ancestors disk.ancestors
    if allow_stage then ok tt else reject_interrupted_path disk.stage
    reject_interrupted_path disk.recovery
    metadata ← metadata_if_exists disk.target
    elim metadata [
      | none ↦ ok CurrentNamespace.missing
      | some node ↦ inspect_target expected validate_bytes node
    ]

  unfoldable pub inspect_current : VaultManifest → Disk → Result VaultError CurrentNamespace
  inspect_current expected disk = inspect_current_inner expected false true disk

  module _ (ns : ManagedNamespace) (seed : VaultManifestSeed)
      (artifacts : List GeneratedArtifact) where
    abbrev pub expected_manifest : VaultManifest
    expected_manifest = for_artifacts codecs ns.namespace_text seed artifacts

    abbrev diff_of : CurrentNamespace → NamespaceDiff
    diff_of (CurrentNamespace.owned digest manifest files) = record {
      namespace = ns.namespace_text;
      changed_artifacts =
          length (outdated files expected_manifest.artifacts)
          + length (unexpected expected_manifest.artifacts (keys files));
      unchanged_artifacts =
          length expected_manifest.artifacts - length (outdated files expected_manifest.artifacts);
    }
    diff_of _ = record {
      namespace = ns.namespace_text;
      changed_artifacts = length artifacts;
      unchanged_artifacts = 0;
    }

    unfoldable pub diff : Disk → Result VaultError NamespaceDiff
    diff disk = do current ← inspect_current expected_manifest disk; ok (diff_of current)

    -- The paths that `check` reports.
    unfoldable pub stale_paths : Map String String → List String
    stale_paths files = Sorting.dedup (
        Sorting.sort (
          outdated files expected_manifest.artifacts
          ++ unexpected expected_manifest.artifacts (keys files)))

    unfoldable pub check_of : CurrentNamespace → Result VaultError NamespaceCheck
    check_of (CurrentNamespace.owned digest manifest files) = do
      refuse_if
          (not (same_manifest manifest expected_manifest)
            || not (
                length (
                  outdated files expected_manifest.artifacts
                  ++ unexpected expected_manifest.artifacts (keys files))
                == 0))
          (stale_namespace (stale_paths files))
      ok (record { namespace = ns.namespace_text; artifact_count = length files })
    check_of _ = err missing_artifacts

    unfoldable pub check : Disk → Result VaultError NamespaceCheck
    check disk = do current ← inspect_current expected_manifest disk; check_of current
