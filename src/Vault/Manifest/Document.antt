-- ===== src/Vault/Manifest/Document.antt =====
-- index_vault_manifest.rs: the reader and the printer of the manifests.
use sim_tooling.Support.{
  ℕ, String, not, Option, none, some, List, [], ◌∷◌, ◌++◌, Result, ok, err, ◌>>=◌, ◌>>◌, ok_or,
  refuse_if, if◌then◌else◌, same_key, text_order,
}
use sim_tooling.Support.Sets
use sim_tooling.Support.Maps
use sim_tooling.Support.Maps.{Map}
use sim_tooling.Vault.{
  Bytes, Codecs, VaultError, parse_failed, not_an_object, manifest_v1, manifest_v2,
  serialize_failed, unsupported_schema, unknown_field, not_a_string, not_a_number,
  not_an_object_field,
}
use sim_tooling.Vault.Manifest.{
  VaultManifest, LegacyVaultManifest, reject_empty, validate_byte_digest, validate_artifacts,
  validate_shape,
}

module _ (codecs : Codecs) where
  open codecs use {
    Json, from_slice, to_string_pretty, as_object, as_str, as_u64, json_string, json_number,
    json_object,
  }

  abbrev optional {ℓ κ} : {A : Type ℓ} {B : Type κ} → Option A → (A → Option B) → Option B
  optional none f = none
  optional (some a) f = f a

  unfoldable pub string_field : Map String Json → String → Result VaultError String
  string_field object name = ok_or (optional (Maps.get object name) as_str) (not_a_string name)

  unfoldable pub object_field : Map String Json → String → Result VaultError (Map String Json)
  object_field object name =
      ok_or (optional (Maps.get object name) as_object) (not_an_object_field name)

  -- The entries that the accessor reads; `collect` inserts them in their order.
  unfoldable pub read_values {ℓ} :
      {A : Type ℓ}
      → (Json → Option A)
      → (String → VaultError)
      → Map String A
      → Map String Json
      → Result VaultError (Map String A)
  read_values accessor wrong read [] = ok read
  read_values accessor wrong read ((key, value) ∷ rest) = do
    a ← ok_or (accessor value) (wrong key)
    read_values accessor wrong (Maps.insert key a read) rest

  unfoldable pub string_map_field : Map String Json → String → Result VaultError (Map String String)
  string_map_field object name = do
    entries ← object_field object name
    read_values as_str not_a_string [] entries

  unfoldable pub number_map_field : Map String Json → String → Result VaultError (Map String ℕ)
  number_map_field object name = do
    entries ← object_field object name
    read_values as_u64 not_a_number [] entries

  -- The first key that is not allowed.
  unfoldable pub unknown_key : List String → Map String Json → Option String
  unknown_key allowed [] = none
  unknown_key allowed ((key, _) ∷ rest) =
      let later = unknown_key allowed rest in if Sets.contains allowed key then later else some key

  unfoldable pub refuse_unknown : List String → Map String Json → Result VaultError (Unit {0})
  refuse_unknown allowed object = elim (unknown_key allowed object) [
    | none ↦ ok tt
    | some key ↦ err (unknown_field key)
  ]

  abbrev pub allowed_fields : List String
  allowed_fields =
      "schema" ∷ "codec" ∷ "profile" ∷ "granularity" ∷ "index_digest" ∷ "projection_digest"
      ∷ "bundle_root" ∷ "namespace" ∷ "coverage" ∷ "artifacts" ∷ []

  unfoldable pub check_schema : String → Result VaultError (Unit {0})
  check_schema schema = do
    refuse_if (same_key schema "sim.index-vault-manifest.v1") manifest_v1
    refuse_if (same_key schema "sim.index-vault-manifest.v2") manifest_v2
    refuse_if (not (same_key schema "sim.index-vault-manifest.v3")) (unsupported_schema schema)

  -- The fields of the struct, then `validate_shape`.
  unfoldable pub read_manifest : Map String Json → Result VaultError VaultManifest
  read_manifest object = do
    namespace ← string_field object "namespace"
    profile ← string_field object "profile"
    granularity ← string_field object "granularity"
    index_digest ← string_field object "index_digest"
    codec ← string_field object "codec"
    projection_digest ← string_field object "projection_digest"
    bundle_root ← string_field object "bundle_root"
    coverage ← number_map_field object "coverage"
    artifacts ← string_map_field object "artifacts"
    let manifest : VaultManifest = record {
      namespace = namespace;
      profile = profile;
      granularity = granularity;
      index_digest = index_digest;
      codec = codec;
      projection_digest = projection_digest;
      bundle_root = bundle_root;
      coverage = coverage;
      artifacts = artifacts;
    } in
        validate_shape manifest >> ok manifest

  -- `VaultManifest::from_bytes`
  unfoldable pub from_bytes : Bytes → Result VaultError VaultManifest
  from_bytes bytes = do
    value ← ok_or (from_slice bytes) parse_failed
    object ← ok_or (as_object value) not_an_object
    schema ← string_field object "schema"
    check_schema schema
    refuse_unknown allowed_fields object
    read_manifest object

  abbrev pub map_values {ℓ} : {A : Type ℓ} → (A → Json) → Map String A → Map String Json
  map_values f [] = []
  map_values f ((k, v) ∷ m) = (k, f v) ∷ map_values f m

  -- The object of `json!`, whose keys are kept in their order.
  unfoldable pub manifest_object : VaultManifest → Map String Json
  manifest_object m =
      ("artifacts", json_object (map_values json_string m.artifacts))
      ∷ ("bundle_root", json_string m.bundle_root)
      ∷ ("codec", json_string m.codec)
      ∷ ("coverage", json_object (map_values json_number m.coverage))
      ∷ ("granularity", json_string m.granularity)
      ∷ ("index_digest", json_string m.index_digest)
      ∷ ("namespace", json_string m.namespace)
      ∷ ("profile", json_string m.profile)
      ∷ ("projection_digest", json_string m.projection_digest)
      ∷ ("schema", json_string "sim.index-vault-manifest.v3")
      ∷ []

  -- `VaultManifest::to_bytes`; 10 is the line feed at the end.
  unfoldable pub to_bytes : VaultManifest → Result VaultError Bytes
  to_bytes m = do
    validate_shape m
    text ← ok_or (to_string_pretty (json_object (manifest_object m))) serialize_failed
    ok (text ++ (10 ∷ []))

  abbrev pub legacy_fields : List String
  legacy_fields =
      "schema" ∷ "namespace" ∷ "profile" ∷ "granularity" ∷ "index_digest" ∷ "coverage" ∷ "artifacts"
      ∷ []

  -- `LegacyVaultManifest::from_bytes`
  unfoldable pub legacy_from_bytes : Bytes → Result VaultError LegacyVaultManifest
  legacy_from_bytes bytes = do
    value ← ok_or (from_slice bytes) parse_failed
    object ← ok_or (as_object value) not_an_object
    refuse_unknown legacy_fields object
    schema ← string_field object "schema"
    refuse_if (not (same_key schema "sim.index-vault-manifest.v1")) (unsupported_schema schema)
    namespace ← string_field object "namespace"
    profile ← string_field object "profile"
    granularity ← string_field object "granularity"
    index_digest ← string_field object "index_digest"
    coverage ← number_map_field object "coverage"
    artifacts ← string_map_field object "artifacts"
    reject_empty "namespace" namespace
    reject_empty "profile" profile
    validate_byte_digest "index_digest" index_digest
    validate_artifacts artifacts
    ok (record {
      namespace = namespace;
      profile = profile;
      granularity = granularity;
      index_digest = index_digest;
      coverage = coverage;
      artifacts = artifacts;
    })
