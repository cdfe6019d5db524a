-- ===== src/Vault.antt =====
-- generated_namespace.rs with its filesystem.rs, generated_artifact.rs and index_vault_manifest.rs:
-- a directory of generated files that an ownership manifest describes.
pub mod Paths
pub mod Artifacts
pub mod Manifest
pub mod Tree
pub mod Namespace
pub mod Action
pub mod Commit
pub mod Migration
use sim_tooling.Support.{ℕ, String, Option, List}
use sim_tooling.Support.Maps.{Map}

abbrev pub Bytes : Type 0
Bytes = List ℕ

-- What the code calls of serde_json, sha2 and Unicode: a JSON value with its accessors and
-- constructors, the reader and the printer of documents, the hexadecimal SHA-256 of a content, and
-- `to_lowercase`.
pub record Codecs : Type 1 where
  pub Json : Type 0
  pub from_slice : Bytes → Option Json
  pub to_string_pretty : Json → Option Bytes
  pub as_object : Json → Option (Map String Json)
  pub as_str : Json → Option String
  pub as_u64 : Json → Option ℕ
  pub json_string : String → Json
  pub json_number : ℕ → Json
  pub json_object : Map String Json → Json
  pub content_digest : Bytes → String
  pub to_lowercase : String → String

-- One constructor for each message of the code, with the names that it shows.
pub data VaultError : Type 0 where
  empty_root empty_namespace not_relative traverses invalid_sibling not_normalized : VaultError
  empty_path backslash_in_path not_normalized_path : VaultError
  duplicate_path : String → VaultError
  case_fold_collision : String → String → VaultError
  parse_failed not_an_object manifest_v1 manifest_v2 serialize_failed : VaultError
  unsupported_schema unknown_field not_a_string not_a_number not_an_object_field :
      String → VaultError
  empty_field bad_prefix bad_hex upper_hex : String → VaultError
  unsupported_codec : String → VaultError
  other_namespace other_profile other_granularity : String → String → VaultError
  root_missing root_not_a_directory ancestor_not_a_directory interrupted unreadable : VaultError
  manifest_not_a_file symlink_inside not_a_file_inside : VaultError
  file_missing file_changed foreign_file : String → VaultError
  target_not_a_directory no_manifest manifest_not_written manifest_differs : VaultError
  missing_artifacts changed_after_preflight injected_failure io_failed : VaultError
  already_v2 other_index unknown_profile unverified_legacy refresh_failed unverified_stage
        changed_during_migration :
      VaultError
  unsupported_granularity : String → VaultError
  mismatches : ℕ → VaultError
  stale_namespace : List String → VaultError
