-- ===== src/Vault/Manifest.antt =====
-- index_vault_manifest.rs: the ownership manifest, and its checks.
pub mod Document
pub mod RoundTrip
use Prim.Native.Char.{Char, code}
use Prim.Native.String.{len, ◌++◌ as ◌<>◌}
use sim_tooling.Support.{
  ℕ, String, Bool, true, false, not, ◌&&◌, ◌||◌, ◌==◌, leb, Option, none, some, List, [], ◌∷◌, ◌++◌,
  Result, ok, err, ◌>>=◌, ◌>>◌, ok_or, refuse_if, if◌then◌else◌, same_key, text_order,
}
use sim_tooling.Support.Sets
use sim_tooling.Support.Maps
use sim_tooling.Support.Maps.{Map}
use sim_tooling.Vault.{
  Bytes, Codecs, VaultError, parse_failed, not_an_object, manifest_v1, manifest_v2,
  serialize_failed, unsupported_schema, unknown_field, not_a_string, not_a_number,
  not_an_object_field, empty_field, bad_prefix, bad_hex, upper_hex, unsupported_codec,
  other_namespace, other_profile, other_granularity,
}
use sim_tooling.Vault.Artifacts.{GeneratedArtifact}

pub record VaultManifestSeed : Type 0 where
  pub profile : String
  pub granularity : String
  pub index_digest : String
  pub projection_digest : String
  pub bundle_root : String
  pub coverage : Map String ℕ

pub record VaultManifest : Type 0 where
  pub namespace : String
  pub profile : String
  pub granularity : String
  pub index_digest : String
  pub codec : String
  pub projection_digest : String
  pub bundle_root : String
  pub coverage : Map String ℕ
  pub artifacts : Map String String

pub record LegacyVaultManifest : Type 0 where
  pub namespace : String
  pub profile : String
  pub granularity : String
  pub index_digest : String
  pub coverage : Map String ℕ
  pub artifacts : Map String String

abbrev pub manifest_file : String
manifest_file = ".sim-index-vault-manifest.json"

abbrev pub codec_id : String
codec_id = "codec/index-vault"

-- `digest.strip_prefix(prefix)`
unfoldable pub strip_prefix : String → String → Option String
strip_prefix s String.[] = some s
strip_prefix String.[] (String.◌∷◌ p ps) = none
strip_prefix (String.◌∷◌ c s) (String.◌∷◌ p ps) =
    let rest = strip_prefix s ps in if code c == code p then rest else none

abbrev is_ascii_uppercase : ℕ → Bool
is_ascii_uppercase c = leb 65 c && leb c 90

abbrev is_ascii_hexdigit : ℕ → Bool
is_ascii_hexdigit c = (leb 48 c && leb c 57) || ((leb 65 c && leb c 70) || (leb 97 c && leb c 102))

unfoldable pub all_chars : (ℕ → Bool) → String → Bool
all_chars test String.[] = true
all_chars test (String.◌∷◌ c s) = test (code c) && all_chars test s

unfoldable pub any_char : (ℕ → Bool) → String → Bool
any_char test String.[] = false
any_char test (String.◌∷◌ c s) = test (code c) || any_char test s

unfoldable pub reject_empty : String → String → Result VaultError (Unit {0})
reject_empty name value = refuse_if (same_key value "") (empty_field name)

-- A byte outside ASCII is no hexadecimal digit, so that the characters stand for the bytes.
unfoldable pub validate_lower_hex : String → String → Result VaultError (Unit {0})
validate_lower_hex name hex = do
  refuse_if (not (len hex == 64) || not (all_chars is_ascii_hexdigit hex)) (bad_hex name)
  refuse_if (any_char is_ascii_uppercase hex) (upper_hex name)

unfoldable pub validate_byte_digest : String → String → Result VaultError (Unit {0})
validate_byte_digest name digest = do
  hex ← ok_or (strip_prefix digest "sha256:") (bad_prefix name)
  validate_lower_hex name hex

unfoldable pub validate_semantic_digest : String → String → Result VaultError (Unit {0})
validate_semantic_digest name digest = do
  hex ← ok_or (strip_prefix digest "core/sha256-datum-v1:") (bad_prefix name)
  validate_lower_hex name hex

-- The loop over the artifacts of a manifest.
unfoldable pub validate_artifacts : Map String String → Result VaultError (Unit {0})
validate_artifacts [] = ok tt
validate_artifacts ((path, digest) ∷ rest) = do
  reject_empty "artifact path" path
  validate_byte_digest path digest
  validate_artifacts rest

-- `VaultManifestSeed::new`
unfoldable pub new_seed : VaultManifestSeed → Result VaultError VaultManifestSeed
new_seed seed = do
  reject_empty "profile" seed.profile
  reject_empty "granularity" seed.granularity
  validate_byte_digest "index_digest" seed.index_digest
  validate_semantic_digest "projection_digest" seed.projection_digest
  validate_semantic_digest "bundle_root" seed.bundle_root
  ok seed

unfoldable pub validate_shape : VaultManifest → Result VaultError (Unit {0})
validate_shape m = do
  reject_empty "namespace" m.namespace
  reject_empty "profile" m.profile
  reject_empty "granularity" m.granularity
  validate_byte_digest "index_digest" m.index_digest
  refuse_if (not (same_key m.codec codec_id)) (unsupported_codec m.codec)
  validate_semantic_digest "projection_digest" m.projection_digest
  validate_semantic_digest "bundle_root" m.bundle_root
  validate_artifacts m.artifacts

unfoldable pub validate_owner : VaultManifest → VaultManifest → Result VaultError (Unit {0})
validate_owner m expected = do
  refuse_if (not (same_key m.namespace expected.namespace))
      (other_namespace m.namespace expected.namespace)
  refuse_if (not (same_key m.profile expected.profile)) (other_profile m.profile expected.profile)
  refuse_if (not (same_key m.granularity expected.granularity))
      (other_granularity m.granularity expected.granularity)

module _ (codecs : Codecs) where
  open codecs use {content_digest}

  unfoldable pub sha256_digest : Bytes → String
  sha256_digest bytes = "sha256:" <> content_digest bytes

  -- The map that `collect` makes of the paths and digests of the artifacts.
  unfoldable pub digests_of : List GeneratedArtifact → Map String String → Map String String
  digests_of [] digests = digests
  digests_of (a ∷ rest) digests =
      digests_of rest (Maps.insert a.path (sha256_digest a.bytes) digests)

  -- `VaultManifest::for_artifacts`
  unfoldable pub for_artifacts : String → VaultManifestSeed → List GeneratedArtifact → VaultManifest
  for_artifacts namespace seed artifacts = record {
    namespace = namespace;
    profile = seed.profile;
    granularity = seed.granularity;
    index_digest = seed.index_digest;
    codec = codec_id;
    projection_digest = seed.projection_digest;
    bundle_root = seed.bundle_root;
    coverage = seed.coverage;
    artifacts = digests_of artifacts [];
  }
