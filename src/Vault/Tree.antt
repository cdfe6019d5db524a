-- ===== src/Vault/Tree.antt =====
-- generated_namespace/filesystem.rs: what the file system shows of the namespace, the digests of
-- its files, and the checks against a manifest.
pub mod Owned
use Prim.Native.String.{◌++◌ as ◌<>◌}
use sim_tooling.Support.{
  ℕ, String, Bool, true, false, not, Option, none, some, List, [], ◌∷◌, Result, ok, err, ◌>>=◌,
  ◌>>◌, refuse_if, if◌then◌else◌, same_key, text_order,
}
use sim_tooling.Support.Maps
use sim_tooling.Support.Maps.{Map}
use sim_tooling.Vault.{
  Bytes, Codecs, VaultError, case_fold_collision, interrupted, unreadable, manifest_not_a_file,
  symlink_inside, not_a_file_inside, file_missing, file_changed, foreign_file, manifest_not_written,
  manifest_differs, root_missing, root_not_a_directory, ancestor_not_a_directory,
}
use sim_tooling.Vault.Manifest.{VaultManifest, manifest_file, sha256_digest}
use sim_tooling.Vault.Manifest.Document.{from_bytes}

-- A file's content is `none` where reading it fails, a directory's entries likewise.
mutual
  pub data Node : Type 0 where
    file : Option Bytes → Node
    symlink special locked_directory : Node
    directory : Entries → Node

  pub data Entries : Type 0 where
    empty : Entries
    entry : String → Node → Entries → Entries

-- What `fs::symlink_metadata` finds at a path.
pub data Slot : Type 0 where
  absent hidden : Slot
  holds : Node → Slot

unfoldable pub metadata_if_exists : Slot → Result VaultError (Option Node)
metadata_if_exists absent = ok none
metadata_if_exists hidden = err unreadable
metadata_if_exists (holds node) = ok (some node)

abbrev pub is_dir : Node → Bool
is_dir (directory entries) = true
is_dir locked_directory = true
is_dir _ = false

unfoldable pub reject_interrupted_path : Slot → Result VaultError (Unit {0})
reject_interrupted_path slot = do
  found ← metadata_if_exists slot
  elim found [ none ↦ ok tt | some node ↦ err interrupted ]

unfoldable pub ensure_vault_root : Slot → Result VaultError (Unit {0})
ensure_vault_root (holds node) = refuse_if (not (is_dir node)) root_not_a_directory
ensure_vault_root _ = err root_missing

-- The slots of the proper prefixes of the namespace, the shortest first.
unfoldable pub ensure_namespace_ancestors : List Slot → Result VaultError (Unit {0})
ensure_namespace_ancestors [] = ok tt
ensure_namespace_ancestors (slot ∷ slots) = do
  found ← metadata_if_exists slot
  elim found [
    | none ↦ ok tt
    | some node ↦
        refuse_if (not (is_dir node)) ancestor_not_a_directory >> ensure_namespace_ancestors slots
  ]

-- The entry of a directory with a name.
unfoldable pub child : String → Entries → Slot
child name empty = absent
child name (entry other node rest) =
    let later = child name rest in if same_key name other then holds node else later

-- `read_manifest_bytes` on what stands at the path.
unfoldable pub read_manifest_bytes : Slot → Result VaultError (Option Bytes)
read_manifest_bytes (holds (file (some bytes))) = ok (some bytes)
read_manifest_bytes (holds (file none)) = err unreadable
read_manifest_bytes (holds _) = err manifest_not_a_file
read_manifest_bytes absent = ok none
read_manifest_bytes hidden = err unreadable

-- `path.join(MANIFEST_FILE)` under the namespace.
unfoldable pub manifest_slot : Node → Slot
manifest_slot (directory entries) = child manifest_file entries
manifest_slot locked_directory = hidden
manifest_slot _ = absent

-- The digests by path, and the paths by their folding.
pub record Found : Type 0 where
  pub files : Map String String
  pub folded : Map String String

-- `root.join(name)` for the key of an entry below a directory with the key `prefix`.
abbrev pub below : String → String → String
below prefix name = if same_key prefix "" then name else prefix <> ("/" <> name)

module _ (codecs : Codecs) where
  open codecs use {to_lowercase}

  -- What the loop does with a file.
  unfoldable pub add_file : String → Option Bytes → Found → Result VaultError Found
  add_file key content found =
      if same_key key manifest_file
      then ok found
      else elim (Maps.get found.folded (to_lowercase key)) [
        | some previous ↦ err (case_fold_collision previous key)
        | none ↦ elim content [
          | none ↦ err unreadable
          | some bytes ↦ ok (record {
            files = Maps.insert key (sha256_digest codecs bytes) found.files;
            folded = Maps.insert (to_lowercase key) key found.folded;
          })
        ]
      ]

  unfoldable mutual
    pub collect_node : String → Node → Found → Result VaultError Found
    collect_node key (file content) found = add_file key content found
    collect_node key symlink found = err symlink_inside
    collect_node key special found = err not_a_file_inside
    collect_node key locked_directory found = err unreadable
    collect_node key (directory entries) found = collect_entries key entries found

    -- The loop of `collect_file_digests_inner`, in the order of `read_dir`.
    pub collect_entries : String → Entries → Found → Result VaultError Found
    collect_entries prefix empty found = ok found
    collect_entries prefix (entry name node rest) found = do
      found' ← collect_node (below prefix name) node found
      collect_entries prefix rest found'

  unfoldable pub collect_file_digests : Node → Result VaultError (Map String String)
  collect_file_digests (directory entries) = do
    found ← collect_entries "" entries (record { files = []; folded = [] })
    ok found.files
  collect_file_digests _ = err unreadable

-- The first loop of `validate_owned_files`, over the entries of the manifest.
unfoldable pub check_listed : Map String String → Map String String → Result VaultError (Unit {0})
check_listed [] files = ok tt
check_listed ((path, digest) ∷ rest) files = elim (Maps.get files path) [
  | none ↦ err (file_missing path)
  | some current ↦
      refuse_if (not (same_key current digest)) (file_changed path) >> check_listed rest files
]

-- The second loop, over the files that were found.
unfoldable pub check_foreign : Map String String → Map String String → Result VaultError (Unit {0})
check_foreign artifacts [] = ok tt
check_foreign artifacts ((path, _) ∷ rest) =
    refuse_if (not (Maps.contains_key artifacts path)) (foreign_file path)
    >> check_foreign artifacts rest

-- The first loop of `validate_owned_paths`.
unfoldable pub check_present : Map String String → Map String String → Result VaultError (Unit {0})
check_present [] files = ok tt
check_present ((path, _) ∷ rest) files =
    refuse_if (not (Maps.contains_key files path)) (file_missing path) >> check_present rest files

-- `validate_owned_files` and `validate_owned_files_v1`, which differ in their messages only.
unfoldable pub validate_owned_files :
    Map String String → Map String String → Result VaultError (Unit {0})
validate_owned_files artifacts files = check_listed artifacts files >> check_foreign artifacts files

unfoldable pub validate_owned_paths :
    Map String String → Map String String → Result VaultError (Unit {0})
validate_owned_paths artifacts files =
    check_present artifacts files >> check_foreign artifacts files
