-- ===== src/Vault/Namespace/Inspection.antt =====
-- What an inspection that returns has seen.
use sim_tooling.Support.{
  String, ◌≡◌, refl, subst, ap, ◌∙◌, ◌⊎◌, Bool, true, not, none, some, [], ok, ◌>>=◌, refuse_if,
  >>-ok-elim, >>=-ok-elim, refuse_if-ok, ok-inj, inl, inr, Bool-cases, Option-cases, if◌then◌else◌,
  arith, List-cases,
}
use sim_tooling.Support.Maps.{Map}
use sim_tooling.Vault.{Codecs, Bytes, target_not_a_directory}
use sim_tooling.Vault.Manifest.{VaultManifest, validate_owner, sha256_digest}
use sim_tooling.Vault.Manifest.Document.{from_bytes}
use sim_tooling.Vault.Tree.{
  Node, Slot, absent, hidden, holds, is_dir, ensure_vault_root, ensure_namespace_ancestors,
  read_manifest_bytes, manifest_slot, collect_file_digests, metadata_if_exists,
  reject_interrupted_path, validate_owned_files,
}
use sim_tooling.Vault.Namespace.{
  Disk, CurrentNamespace, owned, missing, empty_directory, inspect_target, inspect_current_inner,
}

-- Nothing stands at the stage, unless a stage is allowed, and nothing at the recovery path.
pub record IsReady (allow_stage : Bool) (disk : Disk) : Type 0 where
  pub root_found : ensure_vault_root disk.root ≡ ok tt
  pub ancestors_found : ensure_namespace_ancestors disk.ancestors ≡ ok tt
  pub no_stage : (allow_stage ≡ true) ⊎ (disk.stage ≡ absent)
  pub no_recovery : disk.recovery ≡ absent

pub reject_interrupted_path-absent :
    (slot : Slot) → reject_interrupted_path slot ≡ ok tt → slot ≡ absent
unfolding reject_interrupted_path metadata_if_exists
reject_interrupted_path-absent absent h = refl
reject_interrupted_path-absent hidden h = cc
reject_interrupted_path-absent (holds node) h = cc

module _ (codecs : Codecs) (expected : VaultManifest) where
  -- The manifest and the files of a directory that the namespace owns.
  pub record IsOwned (slot : Slot) (digest : String) (manifest : VaultManifest)
      (files : Map String String) : Type 0 where
    pub node : Node
    pub bytes : Bytes
    pub stands : slot ≡ holds node
    pub is_directory : is_dir node ≡ true
    pub read : read_manifest_bytes (manifest_slot node) ≡ ok (some bytes)
    pub parsed : from_bytes codecs bytes ≡ ok manifest
    pub collected : collect_file_digests codecs node ≡ ok files
    pub matches : validate_owned_files manifest.artifacts files ≡ ok tt
    pub owner : validate_owner manifest expected ≡ ok tt
    pub content : digest ≡ sha256_digest codecs bytes

  -- A directory without files.
  pub record IsEmpty (slot : Slot) : Type 0 where
    pub node : Node
    pub stands : slot ≡ holds node
    pub is_directory : is_dir node ≡ true
    pub read : read_manifest_bytes (manifest_slot node) ≡ ok none
    pub collected : collect_file_digests codecs node ≡ ok []

  -- What an inspection says of what stands at the target.
  abbrev pub Describes : Slot → CurrentNamespace → Type 0
  Describes slot missing = slot ≡ absent
  Describes slot empty_directory = IsEmpty slot
  Describes slot (owned digest manifest files) = IsOwned slot digest manifest files

  inspect_target-Describes :
      (node : Node) (current : CurrentNamespace)
      → inspect_target codecs expected true node ≡ ok current
      → Describes (holds node) current
  unfolding inspect_target
  inspect_target-Describes node current h =
      >>-ok-elim (refuse_if (not (is_dir node)) target_not_a_directory) _ h λ accepted h₁.
        let directory : is_dir node ≡ true =
          ground (arith, refuse_if-ok (not (is_dir node)) target_not_a_directory accepted) in
        >>=-ok-elim (read_manifest_bytes (manifest_slot node)) _ h₁ λ found read h₂.
          >>=-ok-elim (collect_file_digests codecs node) _ h₂ λ files collected h₃.
            elim (Option-cases found) [
              | inl none_there ↦ elim (List-cases files) [
                | inl nothing ↦
                    subst (Describes (holds node)) (ok-inj (rw (none_there, nothing) at h₃))
                      (record {
                        node = node;
                        stands = refl;
                        is_directory = directory;
                        read = read ∙ ap ok none_there;
                        collected = collected ∙ ap ok nothing;
                      })
                | inr (first, others, some_there) ↦ cc (rw (none_there, some_there) at h₃)
              ]
              | inr (bytes, there) ↦
                  >>=-ok-elim (from_bytes codecs bytes) _ (rw there at h₃) λ manifest parsed h₄.
                    >>-ok-elim (validate_owner manifest expected) _ h₄ λ owner h₅.
                      >>-ok-elim (validate_owned_files manifest.artifacts files) _ h₅ λ matches h₆.
                        subst (Describes (holds node)) (ok-inj h₆) (record {
                          node = node;
                          bytes = bytes;
                          stands = refl;
                          is_directory = directory;
                          read = read ∙ ap ok there;
                          parsed = parsed;
                          collected = collected;
                          matches = matches;
                          owner = owner;
                          content = refl;
                        })
            ]

  inspect_slot-Describes :
      (slot : Slot) (current : CurrentNamespace)
      → (metadata_if_exists slot >>= λ metadata. elim metadata [
        | none ↦ ok missing
        | some node ↦ inspect_target codecs expected true node
      ])
        ≡ ok current
      → Describes slot current
  unfolding metadata_if_exists
  inspect_slot-Describes absent current h = subst (Describes absent) (ok-inj h) refl
  inspect_slot-Describes hidden current h = cc
  inspect_slot-Describes (holds node) current h = inspect_target-Describes node current h

  pub inspect_current_inner-Describes :
      (allow_stage : Bool) (disk : Disk) (current : CurrentNamespace)
      → inspect_current_inner codecs expected allow_stage true disk ≡ ok current
      → IsReady allow_stage disk × Describes disk.target current
  unfolding inspect_current_inner
  inspect_current_inner-Describes allow_stage disk current h =
      >>-ok-elim (ensure_vault_root disk.root) _ h λ root h₁.
        >>-ok-elim (ensure_namespace_ancestors disk.ancestors) _ h₁ λ ancestors h₂.
          >>-ok-elim (if allow_stage then ok tt else reject_interrupted_path disk.stage) _ h₂
            λ stage h₃. >>-ok-elim (reject_interrupted_path disk.recovery) _ h₃ λ recovery h₄. (
              record {
                root_found = root;
                ancestors_found = ancestors;
                no_stage = elim (Bool-cases allow_stage) [
                  | inl allowed ↦ inl allowed
                  | inr refused ↦
                      inr (reject_interrupted_path-absent disk.stage (rw refused at stage))
                ];
                no_recovery = reject_interrupted_path-absent disk.recovery recovery;
              },
              inspect_slot-Describes disk.target current h₄,
            )

  inspect_slot_complete :
      (slot : Slot) (current : CurrentNamespace)
      → Describes slot current
      → (metadata_if_exists slot >>= λ metadata. elim metadata [
        | none ↦ ok missing
        | some node ↦ inspect_target codecs expected true node
      ])
        ≡ ok current
  unfolding metadata_if_exists inspect_target
  inspect_slot_complete slot missing d = rw d refl
  inspect_slot_complete slot empty_directory d =
      rw (d.stands, d.is_directory, d.read, d.collected) refl
  inspect_slot_complete slot (owned digest manifest files) d =
      rw (d.stands, d.is_directory, d.read, d.collected, d.parsed, d.owner, d.matches, d.content)
        refl

  pub inspect_current_inner_complete :
      (allow_stage : Bool) (disk : Disk) (current : CurrentNamespace)
      → IsReady allow_stage disk
      → Describes disk.target current
      → inspect_current_inner codecs expected allow_stage true disk ≡ ok current
  unfolding inspect_current_inner reject_interrupted_path metadata_if_exists
  inspect_current_inner_complete allow_stage disk current ready d =
      let stage_allowed : (if allow_stage then ok tt else reject_interrupted_path disk.stage)
          ≡ ok tt =
        elim ready.no_stage [
          | inl allowed ↦ rw allowed refl
          | inr none_there ↦ elim (Bool-cases allow_stage) [
            | inl allowed ↦ rw allowed refl
            | inr refused ↦ rw (refused, none_there) refl
          ]
        ] in
      rw (ready.root_found, ready.ancestors_found, stage_allowed, ready.no_recovery)
        (inspect_slot_complete disk.target current d)
