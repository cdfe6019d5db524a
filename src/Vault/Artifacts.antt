-- ===== src/Vault/Artifacts.antt =====
-- generated_artifact.rs: `GeneratedArtifact` and `ArtifactSet`.
pub mod Distinct
use sim_tooling.Support.{
  String, none, some, List, [], ◌∷◌, Result, ok, err, ◌>>◌, if◌then◌else◌, same_key, text_lt,
  text_order,
}
use sim_tooling.Support.Maps
use sim_tooling.Support.Maps.{Map}
use sim_tooling.Vault.{Bytes, Codecs, VaultError, duplicate_path, case_fold_collision}
use sim_tooling.Vault.Paths.{validate_relative_path}

pub record GeneratedArtifact : Type 0 where
  pub path : String
  pub bytes : Bytes

-- `GeneratedArtifact::new`
unfoldable pub new_artifact : String → Bytes → Result VaultError GeneratedArtifact
new_artifact path bytes = do validate_relative_path path; ok (record { path = path; bytes = bytes })

unfoldable pub validate_paths : List GeneratedArtifact → Result VaultError (Unit {0})
validate_paths [] = ok tt
validate_paths (a ∷ others) = validate_relative_path a.path >> validate_paths others

-- The stable sort of `artifacts.sort_by(|left, right| left.path_str().cmp(right.path_str()))`.
abbrev pub put_by_path : GeneratedArtifact → List GeneratedArtifact → List GeneratedArtifact
put_by_path a [] = a ∷ []
put_by_path a (b ∷ bs) =
    let later = put_by_path a bs in if text_lt b.path a.path then b ∷ later else a ∷ b ∷ bs

unfoldable pub sort_by_path : List GeneratedArtifact → List GeneratedArtifact
sort_by_path [] = []
sort_by_path (a ∷ others) = put_by_path a (sort_by_path others)

module _ (codecs : Codecs) where
  open codecs use {to_lowercase}

  -- The loop over the sorted artifacts; `folded_paths` holds the earlier paths by their folding.
  unfoldable pub check_folded :
      Map String String → List GeneratedArtifact → Result VaultError (Unit {0})
  check_folded folded_paths [] = ok tt
  check_folded folded_paths (a ∷ others) = elim (Maps.get folded_paths (to_lowercase a.path)) [
    | none ↦ check_folded (Maps.insert (to_lowercase a.path) a.path folded_paths) others
    | some previous ↦ err (
        if same_key previous a.path
        then duplicate_path a.path
        else case_fold_collision previous a.path)
  ]

  -- `ArtifactSet::new`
  unfoldable pub new_set : List GeneratedArtifact → Result VaultError (List GeneratedArtifact)
  new_set artifacts = do
    validate_paths artifacts
    check_folded [] (sort_by_path artifacts)
    ok (sort_by_path artifacts)
