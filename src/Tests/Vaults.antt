-- ===== src/Tests/Vaults.antt =====
-- A vault with two generated files: its manifest, its commit and its check.
use sim_tooling.Support.{
  ℕ, String, ◌≡◌, ◌≢◌, ◌↔◌, ◌⊎◌, refl, ap, inl, inr, Bool, true, false, Option, none, some, List,
  [], ◌∷◌, ◌++◌, Result, ok, err, text_order, ◌==◌, if◌then◌else◌,
}
use sim_tooling.Support.Maps
use sim_tooling.Support.Maps.{Map, keys}
use sim_tooling.Support.Text.{split}
use sim_tooling.Vault.{Bytes, Codecs}
use sim_tooling.Vault.Paths.{
  later_components, first_component, components, any, any_special, contains_char,
  looks_like_windows_absolute, validate_namespace, validate_sibling_name, normal_parts, join,
  slash_path,
}
use sim_tooling.Vault.Artifacts.{GeneratedArtifact}
use sim_tooling.Vault.Manifest.{
  VaultManifestSeed, VaultManifest, strip_prefix, all_chars, any_char, reject_empty,
  validate_lower_hex, validate_byte_digest, validate_semantic_digest, validate_artifacts,
  validate_shape, sha256_digest, digests_of, for_artifacts,
}
use sim_tooling.Vault.Manifest.Document.{manifest_object, to_bytes}
use sim_tooling.Vault.Namespace.{
  ManagedNamespace, parent, file_name, validate_vault_root, open_namespace, expected_manifest,
}

mutual
  pub data Value : Type 0 where
    text : String → Value
    number : ℕ → Value
    object : Fields → Value

  pub data Fields : Type 0 where
    no_fields : Fields
    field : String → Value → Fields → Fields

abbrev pub as_list : Fields → Map String Value
as_list no_fields = []
as_list (field k v rest) = (k, v) ∷ as_list rest

abbrev pub as_fields : Map String Value → Fields
as_fields [] = no_fields
as_fields ((k, v) ∷ m) = field k v (as_fields m)

pub as_list-as_fields : (m : Map String Value) → as_list (as_fields m) ≡ m
as_list-as_fields [] = refl
as_list-as_fields ((k, v) ∷ m) = ap (λ n. (k, v) ∷ n) (as_list-as_fields m)

abbrev pub text_of : Value → Option String
text_of (text s) = some s
text_of _ = none

abbrev pub number_of : Value → Option ℕ
number_of (number n) = some n
number_of _ = none

abbrev pub fields_of : Value → Option (Map String Value)
fields_of (object fs) = some (as_list fs)
fields_of _ = none

abbrev pub hex : String
hex = "0123456789abcdef0123456789abcdef0123456789abcdef0123456789abcdef"

-- A text that starts with 49 is the first document, every other one the second.
abbrev pub parsed : Value → Value → Bytes → Option Value
parsed old document [] = none
parsed old document (b ∷ bytes) = if b == 49 then some old else some document

abbrev pub codecs_with : Value → Value → Codecs
codecs_with old document = record {
  Json = Value;
  from_slice = parsed old document;
  to_string_pretty = λ value. some (123 ∷ []);
  as_object = fields_of;
  as_str = text_of;
  as_u64 = number_of;
  json_string = text;
  json_number = number;
  json_object = λ m. object (as_fields m);
  content_digest = λ bytes. hex;
  to_lowercase = λ s. s;
}

abbrev pub notes : ManagedNamespace
notes = record {
  vault_root = "vault";
  namespace_text = "area/notes";
  target = "area" ∷ "notes" ∷ [];
  stage = "area" ∷ ".notes.sim-stage" ∷ [];
  recovery = "area" ∷ ".notes.sim-recovery" ∷ [];
}

open_notes : open_namespace "vault" "area/notes" ≡ ok notes
unfolding open_namespace validate_vault_root validate_namespace validate_sibling_name slash_path
    components first_component later_components normal_parts any any_special contains_char
    looks_like_windows_absolute join split sim_tooling.Support.Text.starts_with parent file_name
open_notes = refl

abbrev pub seed : VaultManifestSeed
seed = record {
  profile = "p";
  granularity = "full";
  index_digest = "sha256:0123456789abcdef0123456789abcdef0123456789abcdef0123456789abcdef";
  projection_digest =
      "core/sha256-datum-v1:0123456789abcdef0123456789abcdef0123456789abcdef0123456789abcdef";
  bundle_root =
      "core/sha256-datum-v1:0123456789abcdef0123456789abcdef0123456789abcdef0123456789abcdef";
  coverage = ("cards", 3) ∷ ("repos", 2) ∷ [];
}

abbrev pub artifacts : List GeneratedArtifact
artifacts =
    record { path = "a.md"; bytes = 1 ∷ [] } ∷ record { path = "b/c.md"; bytes = 2 ∷ 3 ∷ [] } ∷ []

abbrev pub manifest : VaultManifest
manifest = record {
  namespace = "area/notes";
  profile = "p";
  granularity = "full";
  index_digest = seed.index_digest;
  codec = "codec/index-vault";
  projection_digest = seed.projection_digest;
  bundle_root = seed.bundle_root;
  coverage = seed.coverage;
  artifacts =
      ("a.md", "sha256:0123456789abcdef0123456789abcdef0123456789abcdef0123456789abcdef")
      ∷ ("b/c.md", "sha256:0123456789abcdef0123456789abcdef0123456789abcdef0123456789abcdef")
      ∷ [];
}

-- A v1 manifest of one file.
abbrev pub old_fields : Fields
old_fields =
    field "artifacts"
      (object (
        field "a.md"
          (text "sha256:0123456789abcdef0123456789abcdef0123456789abcdef0123456789abcdef")
          no_fields))
      (field "coverage" (object no_fields) (
        field "granularity" (text "full") (
          field "index_digest" (text seed.index_digest) (
            field "namespace" (text "area/notes") (
              field "profile" (text "old")
                (field "schema" (text "sim.index-vault-manifest.v1") no_fields))))))

abbrev pub codecs : Codecs
codecs =
    codecs_with (object old_fields)
      (object (as_fields (manifest_object (codecs_with (number 0) (number 0)) manifest)))

manifest_of_artifacts : expected_manifest codecs notes seed artifacts ≡ manifest
unfolding for_artifacts digests_of Maps.insert sha256_digest
manifest_of_artifacts = refl

manifest_bytes : to_bytes codecs manifest ≡ ok (123 ∷ 10 ∷ [])
unfolding to_bytes validate_shape reject_empty validate_byte_digest validate_semantic_digest
    validate_lower_hex validate_artifacts strip_prefix all_chars any_char
manifest_bytes = refl
