-- ===== src/Vault/Tree/Owned.antt =====
-- `validate_owned_files` against equality of the two maps, and the order of what
-- `collect_file_digests` returns.
use mathlib.Core.Option.{some_inj}
use sim_tooling.Support.{
  String, ◌≡◌, ◌⊎◌, refl, sym, subst, ap, ◌∙◌, ◌↔◌, true, not, Option, none, some, List, [], ◌∷◌,
  ok, ◌>>◌, refuse_if, >>-ok-elim, >>=-ok-elim, refuse_if-ok, ok-inj, inl, inr, Bool-cases,
  Option-cases, same_key, same_key_iff, if◌then◌else◌, text_order, arith,
}
use sim_tooling.Support.Sets
use sim_tooling.Support.Maps
use sim_tooling.Support.Maps.{Map, keys, get, contains_key}
use sim_tooling.Vault.{Bytes, Codecs, VaultError, file_changed, foreign_file}
use sim_tooling.Vault.Artifacts.{GeneratedArtifact}
use sim_tooling.Vault.Manifest.{manifest_file, sha256_digest, digests_of}
use sim_tooling.Vault.Tree.{
  Node, file, directory, symlink, special, locked_directory, Entries, empty, entry, Found, add_file,
  collect_node, collect_entries, collect_file_digests, check_listed, check_foreign,
  validate_owned_files, below,
}

same_key_of_not : (a b : String) (x : VaultError) → refuse_if (not (same_key a b)) x ≡ ok tt → a ≡ b
same_key_of_not a b x h =
    (same_key_iff a b).0 (ground (arith, refuse_if-ok (not (same_key a b)) x h))

get-cons-cases :
    (path p d digest : String) (rest : Map String String)
    → get ((p, d) ∷ rest) path ≡ some digest
    → ((path ≡ p) × (d ≡ digest)) ⊎ (get rest path ≡ some digest)
unfolding get
get-cons-cases path p d digest rest e = elim (Bool-cases (same_key path p)) [
  | inl same ↦ inl ((same_key_iff path p).0 same, some_inj.0 (rw same at e))
  | inr other ↦ inr (rw other at e)
]

check_listed-get :
    (artifacts files : Map String String)
    → check_listed artifacts files ≡ ok tt
    → (path digest : String) → get artifacts path ≡ some digest
    → get files path ≡ some digest
unfolding check_listed
check_listed-get [] files h path digest e = cc (Maps.get-nil path)
check_listed-get ((p, d) ∷ rest) files h path digest e = elim (Option-cases (get files p)) [
  | inl missing ↦ cc (rw (check_listed, missing) at h)
  | inr (current, found) ↦
      >>-ok-elim (refuse_if (not (same_key current d)) (file_changed p)) (check_listed rest files)
        (rw (check_listed, found) at h)
        λ unchanged later. elim (get-cons-cases path p d digest rest e) [
          | inl (same, value) ↦ cc (same_key_of_not current d (file_changed p) unchanged)
          | inr lower ↦ check_listed-get rest files later path digest lower
        ]
]

check_foreign-get :
    (artifacts files : Map String String)
    → check_foreign artifacts files ≡ ok tt
    → (path digest : String) → get files path ≡ some digest
    → contains_key artifacts path ≡ true
unfolding check_foreign
check_foreign-get artifacts [] h path digest e = cc (Maps.get-nil path)
check_foreign-get artifacts ((p, d) ∷ rest) h path digest e =
    >>-ok-elim (refuse_if (not (contains_key artifacts p)) (foreign_file p))
      (check_foreign artifacts rest) h
      λ owned later. elim (get-cons-cases path p d digest rest e) [
        | inl (same, value) ↦
            ap (contains_key artifacts) same
            ∙ ground (arith, refuse_if-ok (not (contains_key artifacts p)) (foreign_file p) owned)
        | inr lower ↦ check_foreign-get artifacts rest later path digest lower
      ]

pub get-later :
    (path p d digest : String) (rest : Map String String)
    → Sets.IsSorted (keys ((p, d) ∷ rest))
    → get rest path ≡ some digest
    → get ((p, d) ∷ rest) path ≡ some digest
unfolding get
get-later path p d digest rest sorted e = elim (Bool-cases (same_key path p)) [
  | inl same ↦
      let hidden : get rest path ≡ (if same_key path p then none else get ((p, d) ∷ rest) path) =
        Maps.get-tail path p d rest sorted.0 in
      cc (rw same at hidden)
  | inr other ↦ rw other e
]

check_listed_self :
    (rest whole : Map String String)
    → Sets.IsSorted (keys rest)
    → ((path digest : String) → get rest path ≡ some digest → get whole path ≡ some digest)
    → check_listed rest whole ≡ ok tt
unfolding check_listed
check_listed_self [] whole sorted h = refl
check_listed_self ((p, d) ∷ rest) whole sorted h =
    let found : get whole p ≡ some d = h p d (Maps.get-head p d rest) in
    let same : same_key d d ≡ true = (same_key_iff d d).1 refl in
    rw (check_listed, found, same)
      (check_listed_self rest whole sorted.1
        λ path digest e. h path digest (get-later path p d digest rest sorted e))

check_foreign_self :
    (whole rest : Map String String)
    → Sets.IsSorted (keys rest)
    → ((path digest : String) → get rest path ≡ some digest → contains_key whole path ≡ true)
    → check_foreign whole rest ≡ ok tt
unfolding check_foreign
check_foreign_self whole [] sorted h = refl
check_foreign_self whole ((p, d) ∷ rest) sorted h =
    let owned : contains_key whole p ≡ true = h p d (Maps.get-head p d rest) in
    rw owned (
      check_foreign_self whole rest sorted.1
        λ path digest e. h path digest (get-later path p d digest rest sorted e))

owned-get :
    (artifacts files : Map String String)
    → check_listed artifacts files ≡ ok tt
    → check_foreign artifacts files ≡ ok tt
    → (path : String) → get artifacts path ≡ get files path
owned-get artifacts files listed owned path = elim (Option-cases (get artifacts path)) [
  | inr (digest, e) ↦ e ∙ sym (check_listed-get artifacts files listed path digest e)
  | inl missing ↦ elim (Option-cases (get files path)) [
    | inl e ↦ missing ∙ sym e
    | inr (digest, e) ↦
        cc
          (Maps.get-eq-some artifacts path
            (check_foreign-get artifacts files owned path digest e)).1
  ]
]

-- For two maps in key order, the digests that a manifest lists and those of the files found:
-- `validate_owned_files` accepts them exactly when they are the same map, so that no listed file is
-- missing or changed and no file is there that is not listed.
pub validate_owned_files_iff :
    (artifacts files : Map String String)
    → Sets.IsSorted (keys artifacts)
    → Sets.IsSorted (keys files)
    → (validate_owned_files artifacts files ≡ ok tt) ↔ (artifacts ≡ files)
unfolding validate_owned_files
validate_owned_files_iff artifacts files sorted sorted' = (
  λ h. >>-ok-elim (check_listed artifacts files) (check_foreign artifacts files) h λ listed owned.
      Maps.IsSorted-ext artifacts files sorted sorted' (owned-get artifacts files listed owned),
  λ e.
      subst (λ m. (check_listed artifacts m >> check_foreign artifacts m) ≡ ok tt) e
        (rw (check_listed_self artifacts artifacts sorted (λ path digest f. f)) (
          check_foreign_self artifacts artifacts sorted
            λ path digest f. Maps.contains_key-get artifacts path digest f)),
)

module _ (codecs : Codecs) where
  add_file-IsSorted :
      (key : String) (content : Option Bytes) (found found' : Found)
      → add_file codecs key content found ≡ ok found'
      → Sets.IsSorted (keys found.files)
      → Sets.IsSorted (keys found'.files)
  unfolding add_file
  add_file-IsSorted key content found found' h sorted =
      elim (Bool-cases (same_key key manifest_file)) [
        | inl e ↦ subst (λ f. Sets.IsSorted (keys f.files)) (ok-inj (rw (add_file, e) at h)) sorted
        | inr e ↦ elim (Option-cases (Maps.get found.folded (codecs.to_lowercase key))) [
          | inr (previous, f) ↦ cc (rw (add_file, e, f) at h)
          | inl f ↦ elim (Option-cases content) [
            | inl g ↦ cc (rw (add_file, e, f, g) at h)
            | inr (bytes, g) ↦
                subst (λ f. Sets.IsSorted (keys f.files)) (ok-inj (rw (add_file, e, f, g) at h))
                  (Maps.insert-IsSorted key (sha256_digest codecs bytes) found.files sorted)
          ]
        ]
      ]

  mutual
    unfolding collect_node

    collect_node-IsSorted :
        (key : String) (node : Node) (found found' : Found)
        → collect_node codecs key node found ≡ ok found'
        → Sets.IsSorted (keys found.files)
        → Sets.IsSorted (keys found'.files)
    collect_node-IsSorted key (file content) found found' h sorted =
        add_file-IsSorted key content found found' h sorted
    collect_node-IsSorted key symlink found found' h sorted = cc
    collect_node-IsSorted key special found found' h sorted = cc
    collect_node-IsSorted key locked_directory found found' h sorted = cc
    collect_node-IsSorted key (directory entries) found found' h sorted =
        collect_entries-IsSorted key entries found found' h sorted

    collect_entries-IsSorted :
        (prefix : String) (entries : Entries) (found found' : Found)
        → collect_entries codecs prefix entries found ≡ ok found'
        → Sets.IsSorted (keys found.files)
        → Sets.IsSorted (keys found'.files)
    collect_entries-IsSorted prefix empty found found' h sorted =
        subst (λ f. Sets.IsSorted (keys f.files)) (ok-inj h) sorted
    collect_entries-IsSorted prefix (entry name node rest) found found' h sorted =
        >>=-ok-elim (collect_node codecs (below prefix name) node found)
          (collect_entries codecs prefix rest) h
          λ middle first later.
            collect_entries-IsSorted prefix rest middle found' later
              (collect_node-IsSorted (below prefix name) node found middle first sorted)

  pub collect_file_digests-IsSorted :
      (node : Node) (files : Map String String)
      → collect_file_digests codecs node ≡ ok files
      → Sets.IsSorted (keys files)
  unfolding collect_file_digests
  collect_file_digests-IsSorted (directory entries) files h =
      >>=-ok-elim (collect_entries codecs "" entries (record { files = []; folded = [] })) _ h
        λ found collected last.
          subst (λ m. Sets.IsSorted (keys m)) (ok-inj last)
            (collect_entries-IsSorted "" entries (record { files = []; folded = [] }) found
              collected tt)
  collect_file_digests-IsSorted (file content) files h = cc
  collect_file_digests-IsSorted symlink files h = cc
  collect_file_digests-IsSorted special files h = cc
  collect_file_digests-IsSorted locked_directory files h = cc

  pub digests_of-IsSorted :
      (artifacts : List GeneratedArtifact) (digests : Map String String)
      → Sets.IsSorted (keys digests)
      → Sets.IsSorted (keys (digests_of codecs artifacts digests))
  unfolding digests_of
  digests_of-IsSorted [] digests sorted = sorted
  digests_of-IsSorted (a ∷ rest) digests sorted =
      digests_of-IsSorted rest (Maps.insert a.path (sha256_digest codecs a.bytes) digests)
        (Maps.insert-IsSorted a.path (sha256_digest codecs a.bytes) digests sorted)
