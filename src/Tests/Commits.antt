-- ===== src/Tests/Commits.antt =====
-- Checks and commits of the vault of Tests/Vaults.
use sim_tooling.Vault.Paths.{
  components, first_component, later_components, any, any_special, contains_char,
  looks_like_windows_absolute, validate_relative_path,
}
use sim_tooling.Vault.Artifacts.{
  GeneratedArtifact, validate_paths, sort_by_path, check_folded, new_set,
}
use sim_tooling.Vault.Artifacts.Distinct.{IsArtifactSet, new_set-IsArtifactSet}
use mathlib.Core.Option.{some_inj}
use sim_tooling.Support.{count, Bool, subst, ◌++◌}
use sim_tooling.Support.{ℕ, ◌≡◌, ◌↔◌, refl, ap, false, some, List, [], ◌∷◌, ok, err, text_order}
use sim_tooling.Support.Sets
use sim_tooling.Support.Maps
use sim_tooling.Support.Maps.{Map, keys}
use sim_tooling.Support.Text.{split}
use sim_tooling.Vault.{changed_after_preflight}
use sim_tooling.Vault.Paths.{later_components, first_component, components}
use sim_tooling.Vault.Manifest.{
  strip_prefix, all_chars, any_char, reject_empty, validate_lower_hex, validate_byte_digest,
  validate_semantic_digest, validate_artifacts, validate_shape, validate_owner, sha256_digest,
  digests_of, for_artifacts,
}
use sim_tooling.Vault.Manifest.Document.{
  string_field, object_field, read_values, string_map_field, number_map_field, unknown_key,
  refuse_unknown, check_schema, read_manifest, from_bytes, manifest_object, to_bytes,
}
use sim_tooling.Vault.Manifest.RoundTrip.{from_bytes-to_bytes}
use sim_tooling.Vault.Tree.{
  Node, file, directory, empty, entry, Slot, absent, holds, metadata_if_exists,
  reject_interrupted_path, ensure_vault_root, ensure_namespace_ancestors, child,
  read_manifest_bytes, manifest_slot, add_file, collect_node, collect_entries, collect_file_digests,
  check_listed, check_foreign, validate_owned_files,
}
use sim_tooling.Vault.Tree.Owned.{validate_owned_files_iff}
use sim_tooling.Vault.Namespace.{
  Disk, CurrentNamespace, NamespaceSnapshot, snapshot, NamespaceCheck, same_map, same_manifest,
  outdated, unexpected, inspect_target, inspect_current_inner, inspect_current, diff, check_of,
  check,
}
use sim_tooling.Vault.Namespace.Inspection.{IsReady}
use sim_tooling.Vault.Namespace.Staleness.{IsCurrent, check_iff, check-diff}
use sim_tooling.Vault.Commit.{
  no_fault, after_recovery_rename, PendingNamespaceTransaction, create_parent, put_child, write_at,
  write_artifacts, same_snapshot, move_to_recovery, move_into_place, remove_recovery,
  verify_written_node, verify_written_namespace, staged, write_files, write_stage, verify_snapshot,
  preflight, install, exchange, commit_inner, commit,
}
use sim_tooling.Vault.Commit.Safety.{Survives, commit_inner-Survives}
use sim_tooling.Vault.Commit.Completion.{commit-check}
use sim_tooling.Vault.Commit.Progress.{no_failures, commit_inner-changed, commit_total}
use sim_tooling.Tests.Vaults.{notes, seed, artifacts, manifest, codecs, hex, as_list-as_fields}

from_bytes-to_bytes_example : from_bytes codecs (123 ∷ 10 ∷ []) ≡ ok manifest
unfolding to_bytes validate_shape reject_empty validate_byte_digest validate_semantic_digest
    validate_lower_hex validate_artifacts strip_prefix all_chars any_char manifest_object
from_bytes-to_bytes_example =
    from_bytes-to_bytes codecs (λ s. refl) (λ n. refl) (λ o. ap some (as_list-as_fields o)) manifest
      ((refl, tt), (tt, tt)) ((refl, tt), (tt, tt))
      (λ text h.
        subst (λ t. codecs.from_slice (t ++ (10 ∷ [])) ≡ codecs.from_slice (123 ∷ 10 ∷ []))
          (some_inj.0 h) refl)
      (123 ∷ 10 ∷ []) refl

abbrev read_file : List ℕ → Node
read_file bytes = file (some bytes)

abbrev installed : Node
installed = directory (
    entry "a.md" (read_file (1 ∷ [])) (
      entry "b" (directory (entry "c.md" (read_file (2 ∷ 3 ∷ [])) empty))
        (entry ".sim-index-vault-manifest.json" (read_file (123 ∷ 10 ∷ [])) empty)))

abbrev ready : Slot → Disk
ready target = record {
  root = holds (directory empty);
  ancestors = holds (directory empty) ∷ [];
  target = target;
  stage = absent;
  recovery = absent;
}

validate_owned_files_iff_example :
    (validate_owned_files manifest.artifacts (("a.md", "x") ∷ []) ≡ ok tt)
    ↔ (manifest.artifacts ≡ (("a.md", "x") ∷ []))
validate_owned_files_iff_example =
    validate_owned_files_iff manifest.artifacts (("a.md", "x") ∷ []) ((refl, tt), (tt, tt)) (tt, tt)

check_iff_example :
    ((r : NamespaceCheck) × (check codecs notes seed artifacts (ready (holds installed)) ≡ ok r))
    ↔ (IsReady false (ready (holds installed))
        × IsCurrent codecs notes seed artifacts (ready (holds installed)))
check_iff_example = check_iff codecs notes seed artifacts (ready (holds installed))

checked :
    check codecs notes seed artifacts (ready (holds installed))
    ≡ ok (record { namespace = "area/notes"; artifact_count = 2 })
unfolding to_bytes validate_shape reject_empty validate_byte_digest validate_semantic_digest
    validate_lower_hex validate_artifacts strip_prefix all_chars any_char for_artifacts digests_of
    Maps.insert sha256_digest check check_of inspect_current inspect_current_inner inspect_target
    ensure_vault_root ensure_namespace_ancestors metadata_if_exists reject_interrupted_path
    read_manifest_bytes manifest_slot child collect_file_digests collect_node collect_entries
    add_file Maps.get Maps.contains_key from_bytes string_field object_field read_values
    string_map_field number_map_field unknown_key refuse_unknown check_schema read_manifest
    manifest_object validate_owner validate_owned_files check_listed check_foreign same_manifest
    same_map outdated unexpected Sets.contains snapshot
checked = refl

check-diff_example :
    diff codecs notes seed artifacts (ready (holds installed))
    ≡ ok (record { namespace = "area/notes"; changed_artifacts = 0; unchanged_artifacts = 2 })
unfolding for_artifacts digests_of Maps.insert sha256_digest
check-diff_example =
    check-diff codecs notes seed artifacts (ready (holds installed))
      (record { namespace = "area/notes"; artifact_count = 2 }) checked

abbrev vacant : PendingNamespaceTransaction
vacant = record { expected = manifest; artifacts = artifacts; snapshot = NamespaceSnapshot.missing }

planned : preflight codecs notes seed artifacts (ready absent) ≡ ok vacant
unfolding preflight to_bytes validate_shape reject_empty validate_byte_digest
    validate_semantic_digest validate_lower_hex validate_artifacts strip_prefix all_chars any_char
    for_artifacts digests_of Maps.insert sha256_digest check check_of inspect_current
    inspect_current_inner inspect_target ensure_vault_root ensure_namespace_ancestors
    metadata_if_exists reject_interrupted_path read_manifest_bytes manifest_slot child
    collect_file_digests collect_node collect_entries add_file Maps.get Maps.contains_key from_bytes
    string_field object_field read_values string_map_field number_map_field unknown_key
    refuse_unknown check_schema read_manifest manifest_object validate_owner validate_owned_files
    check_listed check_foreign same_manifest same_map outdated unexpected Sets.contains snapshot
planned = refl

committed : commit codecs no_failures vacant (ready absent) ≡ (ok tt, ready (holds installed))
unfolding commit commit_inner verify_snapshot same_snapshot create_parent write_stage write_files
    staged write_artifacts write_at put_child verify_written_namespace verify_written_node exchange
    install move_to_recovery move_into_place remove_recovery no_failures preflight components
    first_component later_components split to_bytes validate_shape reject_empty validate_byte_digest
    validate_semantic_digest validate_lower_hex validate_artifacts strip_prefix all_chars any_char
    for_artifacts digests_of Maps.insert sha256_digest check check_of inspect_current
    inspect_current_inner inspect_target ensure_vault_root ensure_namespace_ancestors
    metadata_if_exists reject_interrupted_path read_manifest_bytes manifest_slot child
    collect_file_digests collect_node collect_entries add_file Maps.get Maps.contains_key from_bytes
    string_field object_field read_values string_map_field number_map_field unknown_key
    refuse_unknown check_schema read_manifest manifest_object validate_owner validate_owned_files
    check_listed check_foreign same_manifest same_map outdated unexpected Sets.contains snapshot
committed = refl

commit-check_example :
    (r : NamespaceCheck) × (check codecs notes seed artifacts (ready (holds installed)) ≡ ok r)
commit-check_example =
    commit-check codecs notes seed artifacts (ready absent) (ready absent) (ready (holds installed))
      no_failures vacant planned committed

commit_inner-Survives_example : Survives codecs manifest (holds installed) (
    commit_inner codecs no_failures after_recovery_rename
      (record {
        expected = manifest;
        artifacts = artifacts;
        snapshot = NamespaceSnapshot.owned hex manifest.artifacts;
      })
      (ready (holds installed)))
commit_inner-Survives_example =
    commit_inner-Survives codecs no_failures after_recovery_rename
      (record {
        expected = manifest;
        artifacts = artifacts;
        snapshot = NamespaceSnapshot.owned hex manifest.artifacts;
      })
      (ready (holds installed))

abbrev seen : CurrentNamespace
seen =
    CurrentNamespace.owned "sha256:0123456789abcdef0123456789abcdef0123456789abcdef0123456789abcdef"
      manifest manifest.artifacts

commit_inner-changed_example :
    commit_inner codecs no_failures no_fault vacant (ready (holds installed))
    ≡ (err changed_after_preflight, ready (holds installed))
unfolding to_bytes validate_shape reject_empty validate_byte_digest validate_semantic_digest
    validate_lower_hex validate_artifacts strip_prefix all_chars any_char for_artifacts digests_of
    Maps.insert sha256_digest check check_of inspect_current inspect_current_inner inspect_target
    ensure_vault_root ensure_namespace_ancestors metadata_if_exists reject_interrupted_path
    read_manifest_bytes manifest_slot child collect_file_digests collect_node collect_entries
    add_file Maps.get Maps.contains_key from_bytes string_field object_field read_values
    string_map_field number_map_field unknown_key refuse_unknown check_schema read_manifest
    manifest_object validate_owner validate_owned_files check_listed check_foreign same_manifest
    same_map outdated unexpected Sets.contains snapshot
commit_inner-changed_example =
    commit_inner-changed codecs no_failures no_fault vacant (ready (holds installed)) seen refl
      (λ h. cc)

abbrev written : Disk
written = record {
  root = holds (directory empty);
  ancestors = holds (directory empty) ∷ [];
  target = absent;
  stage = holds installed;
  recovery = absent;
}

commit_total_example : (commit codecs no_failures vacant (ready absent)).0 ≡ ok tt
unfolding commit commit_inner verify_snapshot same_snapshot create_parent write_stage write_files
    staged write_artifacts write_at put_child verify_written_namespace verify_written_node exchange
    install move_to_recovery move_into_place remove_recovery no_failures preflight components
    first_component later_components split to_bytes validate_shape reject_empty validate_byte_digest
    validate_semantic_digest validate_lower_hex validate_artifacts strip_prefix all_chars any_char
    for_artifacts digests_of Maps.insert sha256_digest check check_of inspect_current
    inspect_current_inner inspect_target ensure_vault_root ensure_namespace_ancestors
    metadata_if_exists reject_interrupted_path read_manifest_bytes manifest_slot child
    collect_file_digests collect_node collect_entries add_file Maps.get Maps.contains_key from_bytes
    string_field object_field read_values string_map_field number_map_field unknown_key
    refuse_unknown check_schema read_manifest manifest_object validate_owner validate_owned_files
    check_listed check_foreign same_manifest same_map outdated unexpected Sets.contains snapshot
commit_total_example =
    commit_total codecs notes seed artifacts (ready absent) written vacant planned refl

new_set-IsArtifactSet_example :
    IsArtifactSet codecs artifacts
    × ((p : GeneratedArtifact → Bool)
        → count p artifacts
          ≡ count p (
              record { path = "b/c.md"; bytes = 2 ∷ 3 ∷ [] }
              ∷ record { path = "a.md"; bytes = 1 ∷ [] }
              ∷ []))
unfolding new_set validate_paths sort_by_path check_folded validate_relative_path components
    first_component later_components any any_special contains_char looks_like_windows_absolute split
    sim_tooling.Support.Text.starts_with Maps.get Maps.insert
new_set-IsArtifactSet_example =
    new_set-IsArtifactSet codecs
      (record { path = "b/c.md"; bytes = 2 ∷ 3 ∷ [] }
        ∷ record { path = "a.md"; bytes = 1 ∷ [] }
        ∷ [])
      artifacts refl
