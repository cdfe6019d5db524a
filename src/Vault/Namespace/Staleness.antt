-- ===== src/Vault/Namespace/Staleness.antt =====
-- What `check` accepts, and what `diff` counts where it does.
use sim_tooling.Support.{
  ℕ, String, ◌-◌, ◌≡◌, refl, sym, subst, ap, ◌↔◌, true, false, some, List, [], ◌∷◌, length, ok,
  >>=-ok-elim, Bool-cases, same_key, same_key_iff, text_order, arith,
}
use sim_tooling.Support.Sets
use sim_tooling.Support.Maps
use sim_tooling.Support.Maps.{Map, keys, get, contains_key}
use sim_tooling.Vault.{Codecs}
use sim_tooling.Vault.Artifacts.{GeneratedArtifact}
use sim_tooling.Vault.Manifest.{VaultManifest, VaultManifestSeed, for_artifacts}
use sim_tooling.Vault.Tree.Owned.{
  get-later, validate_owned_files_iff, collect_file_digests-IsSorted, digests_of-IsSorted,
}
use sim_tooling.Vault.Namespace.{
  ManagedNamespace, Disk, owned, missing, empty_directory, NamespaceCheck, same_manifest, shows,
  outdated, unexpected, expected_manifest, inspect_current, check_of, check, diff,
}
use sim_tooling.Vault.Namespace.Equality.{same_manifest-eq, same_manifest_refl}
use sim_tooling.Vault.Namespace.Inspection.{
  IsReady, IsOwned, Describes, inspect_current_inner-Describes, inspect_current_inner_complete,
}

minus_zero : (n : ℕ) → n - 0 ≡ n
minus_zero n = omega arith

outdated_self :
    (rest whole : Map String String)
    → Sets.IsSorted (keys rest)
    → ((path digest : String) → get rest path ≡ some digest → get whole path ≡ some digest)
    → outdated whole rest ≡ []
unfolding outdated
outdated_self [] whole sorted h = refl
outdated_self ((p, d) ∷ rest) whole sorted h =
    let found : get whole p ≡ some d = h p d (Maps.get-head p d rest) in
    let same : same_key d d ≡ true = (same_key_iff d d).1 refl in
    let shown : shows whole p d ≡ true = rw (shows, found, same) refl in
    rw (outdated, shown)
      (outdated_self rest whole sorted.1
        λ path digest e. h path digest (get-later path p d digest rest sorted e))

unexpected_self :
    (whole rest : Map String String)
    → Sets.IsSorted (keys rest)
    → ((path digest : String) → get rest path ≡ some digest → contains_key whole path ≡ true)
    → unexpected whole (keys rest) ≡ []
unfolding unexpected
unexpected_self whole [] sorted h = refl
unexpected_self whole ((p, d) ∷ rest) sorted h =
    let owned : contains_key whole p ≡ true = h p d (Maps.get-head p d rest) in
    rw owned (
      unexpected_self whole rest sorted.1
        λ path digest e. h path digest (get-later path p d digest rest sorted e))

module _ (codecs : Codecs) (ns : ManagedNamespace) (seed : VaultManifestSeed)
    (artifacts : List GeneratedArtifact) where
  abbrev pub expected : VaultManifest
  expected = expected_manifest codecs ns seed artifacts

  abbrev pub listed : Map String String
  listed = expected.artifacts

  pub listed-IsSorted : Sets.IsSorted (keys listed)
  unfolding for_artifacts
  listed-IsSorted = digests_of-IsSorted codecs artifacts [] tt

  nothing_outdated : outdated listed listed ≡ []
  nothing_outdated = outdated_self listed listed listed-IsSorted (λ path digest e. e)

  nothing_unexpected : unexpected listed (keys listed) ≡ []
  nothing_unexpected =
      unexpected_self listed listed listed-IsSorted
        (λ path digest e. Maps.contains_key-get listed path digest e)

  -- The target holds exactly the expected manifest and files.
  abbrev pub IsCurrent : Disk → Type 0
  IsCurrent disk = (digest : String) × IsOwned codecs expected disk.target digest expected listed

  abbrev passed : NamespaceCheck
  passed = record { namespace = ns.namespace_text; artifact_count = length listed }

  check_of-IsCurrent :
      (disk : Disk) (digest : String) (manifest : VaultManifest) (files : Map String String)
      (r : NamespaceCheck)
      → IsOwned codecs expected disk.target digest manifest files
      → check_of codecs ns seed artifacts (owned digest manifest files) ≡ ok r
      → IsCurrent disk
  unfolding check_of
  check_of-IsCurrent disk digest manifest files r found h =
      let same : manifest ≡ expected =
        same_manifest-eq manifest expected
          (ground (arith, Bool-cases (same_manifest manifest expected))) in
      let agree : manifest.artifacts ≡ files =
        (validate_owned_files_iff manifest.artifacts files
            (subst (λ m. Sets.IsSorted (keys m.artifacts)) (sym same) listed-IsSorted)
            (collect_file_digests-IsSorted codecs found.node files found.collected)).0
          found.matches in
      (
        digest,
        subst (λ m. IsOwned codecs expected disk.target digest m m.artifacts) same
            (subst (IsOwned codecs expected disk.target digest manifest) (sym agree) found),
      )

  check_of-passed :
      (digest : String)
      → check_of codecs ns seed artifacts (owned digest expected listed) ≡ ok passed
  unfolding check_of
  check_of-passed digest =
      rw (same_manifest_refl expected, nothing_outdated, nothing_unexpected) refl

  check-ok :
      (disk : Disk) (r : NamespaceCheck)
      → check codecs ns seed artifacts disk ≡ ok r
      → IsReady false disk × IsCurrent disk
  unfolding check check_of inspect_current
  check-ok disk r h =
      >>=-ok-elim (inspect_current codecs expected disk) (check_of codecs ns seed artifacts) h
        λ current inspected checked.
          let (ready, seen) =
            inspect_current_inner-Describes codecs expected false disk current inspected in
          elim current
              as (λ c.
                Describes codecs expected disk.target c
                → check_of codecs ns seed artifacts c ≡ ok r
                → IsReady false disk × IsCurrent disk) [
                  | missing ↦ λ d e. cc
                  | empty_directory ↦ λ d e. cc
                  | owned digest manifest files ↦
                      λ d e. (ready, check_of-IsCurrent disk digest manifest files r d e)
                ]
            seen checked

  -- `check` succeeds exactly when nothing is in the way (the vault root is a directory, no ancestor
  -- is something else, and neither a stage nor a recovery copy stands there) and the target is a
  -- directory whose manifest is the expected one and whose files, by path and digest, are exactly
  -- the generated artifacts.
  pub check_iff :
      (disk : Disk)
      → ((r : NamespaceCheck) × (check codecs ns seed artifacts disk ≡ ok r))
        ↔ (IsReady false disk × IsCurrent disk)
  unfolding check inspect_current
  check_iff disk = (
    λ (r, h). check-ok disk r h,
    λ (ready, current).
        let inspected =
          inspect_current_inner_complete codecs expected false disk
            (owned current.0 expected listed) ready current.1 in
        (passed, rw inspected (check_of-passed current.0)),
  )

  -- Where `check` succeeds, `diff` counts no changed artifact and all of them as unchanged.
  pub check-diff :
      (disk : Disk) (r : NamespaceCheck)
      → check codecs ns seed artifacts disk ≡ ok r
      → diff codecs ns seed artifacts disk
        ≡ ok (record {
          namespace = ns.namespace_text;
          changed_artifacts = 0;
          unchanged_artifacts = length listed;
        })
  unfolding diff inspect_current
  check-diff disk r h =
      let (ready, current) = check-ok disk r h in
      let inspected =
        inspect_current_inner_complete codecs expected false disk (owned current.0 expected listed)
          ready current.1 in
      rw (inspected, nothing_outdated, nothing_unexpected)
        (ap
          (λ n. ok (record {
            namespace = ns.namespace_text;
            changed_artifacts = 0;
            unchanged_artifacts = n;
          }))
          (minus_zero (length listed)))
