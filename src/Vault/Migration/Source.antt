-- ===== src/Vault/Migration/Source.antt =====
-- generated_namespace.rs: what `migrate_v1_inner` reads and verifies before it writes.
use sim_tooling.Support.{
  ℕ, String, Bool, true, false, not, ◌&&◌, Option, none, List, [], ◌∷◌, length, Result, ok, err,
  ok_or, refuse_if, ◌>>=◌, ◌>>◌, if◌then◌else◌, same_key, text_order,
}
use sim_tooling.Support.Maps.{Map, keys}
use sim_tooling.Vault.{
  Bytes, Codecs, VaultError, no_manifest, already_v2, other_namespace, other_profile,
  other_granularity, other_index, unknown_profile, io_failed, unverified_legacy, refresh_failed,
  unverified_stage, missing_artifacts,
}
use sim_tooling.Vault.Artifacts.{GeneratedArtifact, new_artifact, new_set}
use sim_tooling.Vault.Manifest.{VaultManifest, VaultManifestSeed, sha256_digest}
use sim_tooling.Vault.Manifest.Document.{from_bytes, legacy_from_bytes}
use sim_tooling.Vault.Tree.{
  Slot, absent, hidden, holds, ensure_vault_root, ensure_namespace_ancestors,
  reject_interrupted_path, read_manifest_bytes, manifest_slot, collect_file_digests,
  validate_owned_files,
}
use sim_tooling.Vault.Namespace.{
  ManagedNamespace, Disk, CurrentNamespace, owned, NamespaceDiff, same_map, same_manifest,
  expected_manifest, inspect_current, inspect_current_inner,
}
use sim_tooling.Vault.Migration.{
  MigrationFault, before_manifest_read, after_manifest_read, after_source_validation,
  after_legacy_verify, migration_fail, VaultCodec, read_all, paths, contents, parse_granularity,
  same_granularity,
}

-- `read_manifest_bytes(&self.target.join(MANIFEST_FILE))`
unfoldable pub manifest_at : Slot → Result VaultError (Option Bytes)
manifest_at (holds node) = read_manifest_bytes (manifest_slot node)
manifest_at absent = ok none
manifest_at hidden = read_manifest_bytes hidden

unfoldable pub files_at : Codecs → Slot → Result VaultError (Map String String)
files_at codecs (holds node) = collect_file_digests codecs node
files_at codecs _ = err io_failed

-- What is known of the source once it is verified: the digest of its manifest and its files.
pub record Source : Type 0 where
  pub manifest_digest : String
  pub files : Map String String

-- The result of a migration that has nothing to do, or the source of one that has.
pub data Planned : Type 0 where
  current : NamespaceDiff → Planned
  legacy : Source → Planned

-- `MigrationRequest`
pub record MigrationRequest (v : VaultCodec) : Type 0 where
  pub legacy_profile : String
  pub seed : VaultManifestSeed
  pub artifacts : List GeneratedArtifact
  pub legacy_projection : v.Projection
  pub expected_bundle : v.Bundle
  pub expected_projection : v.Projection

module _ (codecs : Codecs) (v : VaultCodec) (ns : ManagedNamespace)
    (request : MigrationRequest v) where
  abbrev pub target_manifest : VaultManifest
  target_manifest = expected_manifest codecs ns request.seed request.artifacts

  -- The namespace is under a current manifest.
  unfoldable pub already_current : CurrentNamespace → Result VaultError NamespaceDiff
  already_current (owned digest manifest files) =
      if same_manifest manifest target_manifest
      then ok (record {
        namespace = ns.namespace_text;
        changed_artifacts = 0;
        unchanged_artifacts = length request.artifacts;
      })
      else err already_v2
  already_current _ = err missing_artifacts

  -- From `LegacyVaultManifest::from_bytes` to the verification of the v1 bundle.
  unfoldable pub verify_source : MigrationFault → Bytes → Slot → Result VaultError Source
  verify_source fault bytes slot = do
    old ← legacy_from_bytes codecs bytes
    refuse_if (not (same_key old.namespace ns.namespace_text))
        (other_namespace old.namespace ns.namespace_text)
    refuse_if (not (same_key old.profile request.legacy_profile))
        (other_profile old.profile request.legacy_profile)
    refuse_if (not (same_key old.index_digest request.seed.index_digest)) other_index
    files ← files_at codecs slot
    validate_owned_files old.artifacts files
    migration_fail fault after_source_validation
    profile ← ok_or (v.resolve_legacy_profile request.legacy_profile) unknown_profile
    granularity ← parse_granularity old.granularity
    refuse_if (not (same_granularity granularity (v.granularity request.expected_projection)))
        (other_granularity old.granularity request.seed.granularity)
    entries ← ok_or (read_all (keys old.artifacts) slot) io_failed
    refuse_if (not (v.verify_legacy_v1 profile granularity entries request.legacy_projection))
        unverified_legacy
    migration_fail fault after_legacy_verify
    ok (record { manifest_digest = sha256_digest codecs bytes; files = files })

  -- Up to the first write.
  unfoldable pub prepare : MigrationFault → Disk → Result VaultError Planned
  prepare fault disk = do
    ensure_vault_root disk.root
    ensure_namespace_ancestors disk.ancestors
    reject_interrupted_path disk.stage
    reject_interrupted_path disk.recovery
    migration_fail fault before_manifest_read
    found ← manifest_at disk.target
    bytes ← ok_or found no_manifest
    migration_fail fault after_manifest_read
    elim (from_bytes codecs bytes) [
      | ok manifest ↦ (do
        seen ← inspect_current codecs target_manifest disk
        diff ← already_current seen
        ok (current diff))
      | err _ ↦ (do source ← verify_source fault bytes disk.target; ok (legacy source))
    ]

  -- `bundle_from_root` and the verification of the staged bundle.
  unfoldable pub verify_staged : Slot → Result VaultError ℕ
  verify_staged stage = do
    read ← ok_or (read_all (paths (v.entries request.expected_bundle)) stage) io_failed
    bundle ←
        ok_or (v.refresh_bundle_identities (v.with_bytes request.expected_bundle (contents read)))
          refresh_failed
    ok_or (v.verify_v2 bundle request.expected_projection) unverified_stage

  -- The second reading of the source.
  unfoldable pub is_unchanged : Source → Slot → Result VaultError Bool
  is_unchanged source slot = do
    found ← manifest_at slot
    bytes ← ok_or found no_manifest
    files ← files_at codecs slot
    ok (
        same_key (sha256_digest codecs bytes) source.manifest_digest
        && same_map (λ a b. same_key a b) files source.files)

abbrev is_owned : CurrentNamespace → Bool
is_owned (owned digest manifest files) = true
is_owned _ = false

-- The artifacts of the entries of a bundle.
unfoldable pub artifacts_of : List (String × Bytes) → Result VaultError (List GeneratedArtifact)
artifacts_of [] = ok []
artifacts_of ((path, bytes) ∷ rest) = do
  artifact ← new_artifact path bytes
  later ← artifacts_of rest
  ok (artifact ∷ later)

-- `ManagedNamespace::current_bundle`
unfoldable pub current_bundle :
    Codecs
    → (v : VaultCodec) → ManagedNamespace
    → VaultManifestSeed
    → v.Bundle
    → Disk
    → Result VaultError v.Bundle
current_bundle codecs v ns seed bundle disk = do
  artifacts ← artifacts_of (v.entries bundle)
  set ← new_set codecs artifacts
  seen ← inspect_current_inner codecs (expected_manifest codecs ns seed set) false false disk
  refuse_if (not (is_owned seen)) missing_artifacts
  read ← ok_or (read_all (paths (v.entries bundle)) disk.target) io_failed
  ok_or (v.refresh_bundle_identities (v.with_bytes bundle (contents read))) refresh_failed
