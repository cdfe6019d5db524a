-- ===== src/Vault/Commit/Installed.antt =====
-- What `verify_written_namespace` has seen, and the comparison of snapshots.
use sim_tooling.Support.{
  String, ◌≡◌, refl, sym, subst, ap, ap₂, ◌∙◌, true, some, ok, inl, inr, Bool-cases, Option-cases,
  Result-cases, same_key, same_key_iff, text_order,
}
use sim_tooling.Support.Sets
use sim_tooling.Support.Maps.{Map, keys}
use sim_tooling.Vault.{Codecs, Bytes}
use sim_tooling.Vault.Manifest.{VaultManifest, sha256_digest}
use sim_tooling.Vault.Manifest.Document.{from_bytes}
use sim_tooling.Vault.Tree.{
  Node, file, symlink, special, locked_directory, directory, Slot, absent, hidden, holds, is_dir,
  read_manifest_bytes, manifest_slot, collect_file_digests, validate_owned_files,
}
use sim_tooling.Vault.Tree.Owned.{validate_owned_files_iff, collect_file_digests-IsSorted}
use sim_tooling.Vault.Namespace.{
  same_map, same_manifest, NamespaceSnapshot, owned, missing, empty_directory,
}
use sim_tooling.Vault.Namespace.Equality.{
  same_manifest-eq, same_map-eq, same_map_refl, validate_owner_refl, and_true,
}
use sim_tooling.Vault.Namespace.Inspection.{IsOwned}
use sim_tooling.Vault.Commit.{verify_written_node, verify_written_namespace, same_snapshot}
use sim_tooling.Vault.Commit.Safety.{Installed}

pub same_snapshot-eq : (s t : NamespaceSnapshot) → same_snapshot s t ≡ true → s ≡ t
unfolding same_snapshot
same_snapshot-eq missing missing h = refl
same_snapshot-eq empty_directory empty_directory h = refl
same_snapshot-eq (owned d f) (owned e g) h =
    let parts = and_true (same_key d e) (same_map (λ a b. same_key a b) f g) h in
    ap₂ owned ((same_key_iff d e).0 parts.0)
      (same_map-eq (λ a b. same_key a b) same_key_iff f g parts.1)
same_snapshot-eq missing empty_directory h = cc
same_snapshot-eq missing (owned e g) h = cc
same_snapshot-eq empty_directory missing h = cc
same_snapshot-eq empty_directory (owned e g) h = cc
same_snapshot-eq (owned d f) missing h = cc
same_snapshot-eq (owned d f) empty_directory h = cc

pub same_snapshot_refl : (s : NamespaceSnapshot) → same_snapshot s s ≡ true
unfolding same_snapshot
same_snapshot_refl missing = refl
same_snapshot_refl empty_directory = refl
same_snapshot_refl (owned d f) =
    let key : same_key d d ≡ true = (same_key_iff d d).1 refl in
    rw (key, same_map_refl (λ a b. same_key a b) same_key_iff f) refl

module _ (codecs : Codecs) where
  collect_file_digests-is_dir :
      (node : Node) (files : Map String String)
      → collect_file_digests codecs node ≡ ok files
      → is_dir node ≡ true
  unfolding collect_file_digests
  collect_file_digests-is_dir (directory entries) files h = refl
  collect_file_digests-is_dir locked_directory files h = refl
  collect_file_digests-is_dir (file content) files h = cc
  collect_file_digests-is_dir symlink files h = cc
  collect_file_digests-is_dir special files h = cc

  module _ (expected : VaultManifest) (sorted : Sets.IsSorted (keys expected.artifacts)) where
    read-IsOwned :
        (node : Node) (bytes : Bytes) (manifest : VaultManifest) (files : Map String String)
        → read_manifest_bytes (manifest_slot node) ≡ ok (some bytes)
        → from_bytes codecs bytes ≡ ok manifest
        → manifest ≡ expected
        → collect_file_digests codecs node ≡ ok files
        → validate_owned_files manifest.artifacts files ≡ ok tt
        → (digest : String) × IsOwned codecs expected
            (holds node)
            digest
            expected
            expected.artifacts
    read-IsOwned node bytes manifest files read parsed same collected matches =
        let matches' : validate_owned_files expected.artifacts files ≡ ok tt =
          subst (λ m. validate_owned_files m.artifacts files ≡ ok tt) same matches in
        let agree : expected.artifacts ≡ files =
          (validate_owned_files_iff expected.artifacts files sorted
              (collect_file_digests-IsSorted codecs node files collected)).0
            matches' in
        (
          sha256_digest codecs bytes,
          record {
            node = node;
            bytes = bytes;
            stands = refl;
            is_directory = collect_file_digests-is_dir node files collected;
            read = read;
            parsed = parsed ∙ ap ok same;
            collected = collected ∙ ap ok (sym agree);
            matches =
                subst (λ f. validate_owned_files expected.artifacts f ≡ ok tt) (sym agree) matches';
            owner = validate_owner_refl expected;
            content = refl;
          },
        )

    verify_written_node-IsOwned :
        (node : Node)
        → verify_written_node codecs expected node ≡ ok tt
        → (digest : String) × IsOwned codecs expected
            (holds node)
            digest
            expected
            expected.artifacts
    unfolding verify_written_node
    verify_written_node-IsOwned node h =
        elim (Result-cases (read_manifest_bytes (manifest_slot node))) [
          | inr (e, r) ↦ cc (rw (verify_written_node, r) at h)
          | inl (found, r) ↦ elim (Option-cases found) [
            | inl n ↦ cc (rw (verify_written_node, r, n) at h)
            | inr (bytes, there) ↦ elim (Result-cases (from_bytes codecs bytes)) [
              | inr (e, p) ↦ cc (rw (verify_written_node, r, there, p) at h)
              | inl (manifest, p) ↦ elim (Bool-cases (same_manifest manifest expected)) [
                | inr differs ↦ cc (rw (verify_written_node, r, there, p, differs) at h)
                | inl same ↦ elim (Result-cases (collect_file_digests codecs node)) [
                  | inr (e, c) ↦ cc (rw (verify_written_node, r, there, p, same, c) at h)
                  | inl (files, c) ↦
                      read-IsOwned node bytes manifest files (r ∙ ap ok there) p
                        (same_manifest-eq manifest expected same) c
                        (rw (verify_written_node, r, there, p, same, c) at h)
                ]
              ]
            ]
          ]
        ]

    pub Installed-IsOwned :
        (slot : Slot)
        → Installed codecs expected slot
        → (digest : String) × IsOwned codecs expected slot digest expected expected.artifacts
    unfolding verify_written_namespace
    Installed-IsOwned (holds node) h = verify_written_node-IsOwned node h
    Installed-IsOwned absent h = cc
    Installed-IsOwned hidden h = cc
