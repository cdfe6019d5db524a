-- ===== src/Tests/Migrations.antt =====
-- A migration of the vault of Tests/Vaults.
use sim_tooling.Vault.Paths.{components, first_component, later_components}
use sim_tooling.Support.{String, true}
use sim_tooling.Vault.{Bytes}
use sim_tooling.Vault.Manifest.Document.{legacy_from_bytes}
use sim_tooling.Support.{◌≡◌, refl, false, some, List, [], ◌∷◌, ok, text_order}
use sim_tooling.Support.Sets
use sim_tooling.Support.Maps
use sim_tooling.Support.Maps.{Map, keys}
use sim_tooling.Support.Text.{split}
use sim_tooling.Vault.Paths.{later_components, first_component, components}
use sim_tooling.Vault.Manifest.{
  strip_prefix, all_chars, any_char, reject_empty, validate_lower_hex, validate_byte_digest,
  validate_semantic_digest, validate_artifacts, validate_shape, sha256_digest, digests_of,
  for_artifacts,
}
use sim_tooling.Vault.Manifest.Document.{
  string_field, object_field, read_values, string_map_field, number_map_field, unknown_key,
  refuse_unknown, check_schema, read_manifest, from_bytes, manifest_object, to_bytes,
}
use sim_tooling.Vault.Tree.{
  Node, file, directory, empty, entry, absent, holds, metadata_if_exists, reject_interrupted_path,
  ensure_vault_root, ensure_namespace_ancestors, child, read_manifest_bytes, manifest_slot,
  add_file, collect_node, collect_entries, collect_file_digests, check_listed, check_foreign,
  validate_owned_files,
}
use sim_tooling.Vault.Namespace.{Disk, same_map, same_manifest}
use sim_tooling.Vault.Commit.{
  put_child, write_at, write_artifacts, move_to_recovery, move_into_place, remove_recovery,
  verify_written_node, verify_written_namespace, staged, write_files, write_stage,
}
use sim_tooling.Vault.Commit.Progress.{no_failures}
use sim_tooling.Tests.Vaults.{notes, seed, artifacts, codecs}
use sim_tooling.Vault.Migration.{
  MigrationFault, after_live_rename, full, VaultCodec, migration_fail, MigrationIo, read_at,
  read_all, parse_granularity,
}
use sim_tooling.Vault.Migration.Source.{
  manifest_at, files_at, MigrationRequest, verify_source, prepare, verify_staged, is_unchanged,
}
use sim_tooling.Vault.Migration.Transaction.{
  accept_stage, accept_source, stage_target, clean_up, install_target, rewrite, migrate_v1_inner,
}
use sim_tooling.Vault.Migration.Safety.{Held, migrate_v1_inner-Held}

abbrev vault_codec : VaultCodec
vault_codec = record {
  Profile = String;
  Projection = Unit {0};
  Bundle = List Bytes;
  granularity = λ p. full;
  resolve_legacy_profile = λ name. some name;
  verify_legacy_v1 = λ profile granularity entries p. true;
  entries = λ bundle. ("a.md", []) ∷ ("b/c.md", []) ∷ [];
  with_bytes = λ bundle contents. contents;
  refresh_bundle_identities = λ bundle. some bundle;
  verify_v2 = λ bundle p. some 0;
}

abbrev request : MigrationRequest vault_codec
request = record {
  legacy_profile = "old";
  seed = seed;
  artifacts = artifacts;
  legacy_projection = tt;
  expected_bundle = [];
  expected_projection = tt;
}

abbrev all_go : MigrationIo
all_go = record {
  io = no_failures;
  discarded_stage = absent;
  unstage_fails = false;
  restore_fails = false;
}

abbrev old_vault : Node
old_vault = directory (
    entry "a.md" (file (some (7 ∷ [])))
      (entry ".sim-index-vault-manifest.json" (file (some (49 ∷ []))) empty))

abbrev new_vault : Node
new_vault = directory (
    entry "a.md" (file (some (1 ∷ []))) (
      entry "b" (directory (entry "c.md" (file (some (2 ∷ 3 ∷ []))) empty))
        (entry ".sim-index-vault-manifest.json" (file (some (123 ∷ 10 ∷ []))) empty)))

abbrev at_target : Node → Disk
at_target node = record {
  root = holds (directory empty);
  ancestors = holds (directory empty) ∷ [];
  target = holds node;
  stage = absent;
  recovery = absent;
}

migrated :
    migrate_v1_inner codecs vault_codec notes request all_go MigrationFault.no_fault
      (at_target old_vault)
    ≡ (
      ok (record { namespace = "area/notes"; changed_artifacts = 2; unchanged_artifacts = 0 }),
      at_target new_vault,
    )
unfolding to_bytes validate_shape reject_empty validate_byte_digest validate_semantic_digest
    validate_lower_hex validate_artifacts strip_prefix all_chars any_char for_artifacts digests_of
    Maps.insert sha256_digest ensure_vault_root ensure_namespace_ancestors metadata_if_exists
    reject_interrupted_path read_manifest_bytes manifest_slot child collect_file_digests
    collect_node collect_entries add_file Maps.get Maps.contains_key from_bytes string_field
    object_field read_values string_map_field number_map_field unknown_key refuse_unknown
    check_schema read_manifest manifest_object validate_owned_files check_listed check_foreign
    same_manifest same_map Sets.contains migrate_v1_inner prepare verify_source legacy_from_bytes
    manifest_at files_at migration_fail parse_granularity read_all read_at rewrite stage_target
    accept_stage accept_source verify_staged is_unchanged install_target clean_up write_stage
    write_files staged write_artifacts write_at put_child verify_written_namespace
    verify_written_node move_to_recovery move_into_place remove_recovery no_failures components
    first_component later_components split
migrated = refl

migrate_v1_inner-Held_example :
    Held codecs vault_codec notes request
      (holds old_vault)
      (migrate_v1_inner codecs vault_codec notes request all_go after_live_rename
        (at_target old_vault)).1
migrate_v1_inner-Held_example =
    migrate_v1_inner-Held codecs vault_codec notes request all_go after_live_rename
      (at_target old_vault)
