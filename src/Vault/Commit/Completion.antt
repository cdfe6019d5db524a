-- ===== src/Vault/Commit/Completion.antt =====
-- What a commit that succeeds leaves behind, when it is refused, and when it succeeds.
use sim_tooling.Support.{
  ◌≡◌, refl, sym, subst, ap, ◌∙◌, inl, inr, Bool, true, false, List, ok, err, refuse_if, Bool-cases,
  Option-cases, Result-cases, ok-inj,
}
use sim_tooling.Vault.{Codecs, injected_failure}
use sim_tooling.Vault.Artifacts.{GeneratedArtifact}
use sim_tooling.Vault.Manifest.{VaultManifest, VaultManifestSeed}
use sim_tooling.Vault.Tree.{
  absent, reject_interrupted_path, ensure_namespace_ancestors, ensure_vault_root,
}
use sim_tooling.Vault.Namespace.{
  ManagedNamespace, Disk, CurrentNamespace, NamespaceCheck, snapshot, inspect_current,
  expected_manifest, check,
}
use sim_tooling.Vault.Namespace.Staleness.{check_iff, listed-IsSorted}
use sim_tooling.Vault.Namespace.Inspection.{IsReady}
use sim_tooling.Vault.Action.{Outcome, Action, reading, >>=-outcome, >>=-outcome_of_reading, ◌>>◌}
use sim_tooling.Vault.Commit.{
  Io, CommitFault, no_fault, PendingNamespaceTransaction, is_injected, create_parent, write_stage,
  stands_at, move_to_recovery, move_into_place, remove_recovery, only_if, install,
  verify_written_namespace, verify_snapshot, exchange, commit_inner, commit, preflight,
}
use sim_tooling.Vault.Commit.Safety.{Installed, verify_snapshot-Describes}
use sim_tooling.Vault.Commit.Installed.{Installed-IsOwned}

-- The disk after each rename.
abbrev pub in_place : Disk → Disk
in_place disk = record {
  root = disk.root;
  ancestors = disk.ancestors;
  target = disk.stage;
  stage = absent;
  recovery = disk.recovery;
}

abbrev pub set_aside : Disk → Disk
set_aside disk = record {
  root = disk.root;
  ancestors = disk.ancestors;
  target = absent;
  stage = disk.stage;
  recovery = disk.target;
}

move_into_place-ok :
    (io : Io) (disk disk' : Disk) → move_into_place io disk ≡ (ok tt, disk') → disk' ≡ in_place disk
unfolding move_into_place
move_into_place-ok io disk disk' h = elim (Bool-cases io.rename_stage_fails) [
  | inl e ↦ cc (rw (move_into_place, e) at h)
  | inr e ↦ sym (ap (λ o. o.1) (rw (move_into_place, e) at h))
]

move_to_recovery-ok :
    (io : Io) (disk disk' : Disk)
    → move_to_recovery io disk ≡ (ok tt, disk')
    → disk' ≡ set_aside disk
unfolding move_to_recovery
move_to_recovery-ok io disk disk' h = elim (Bool-cases io.rename_target_fails) [
  | inl e ↦ cc (rw (move_to_recovery, e) at h)
  | inr e ↦ sym (ap (λ o. o.1) (rw (move_to_recovery, e) at h))
]

module _ (codecs : Codecs) (expected : VaultManifest) where
  -- The old content is replaced: the new one is installed, and nothing else is left.
  abbrev Replaced : Outcome (Unit {0}) → Type 0
  Replaced (err e, disk) = Unit
  Replaced (ok _, disk) = IsReady false disk × Installed codecs expected disk.target

  only_if-Replaced :
      (io : Io) (had : Bool) (disk : Disk)
      → ensure_vault_root disk.root ≡ ok tt
      → ensure_namespace_ancestors disk.ancestors ≡ ok tt
      → disk.stage ≡ absent
      → (had ≡ false → disk.recovery ≡ absent)
      → Installed codecs expected disk.target
      → Replaced (only_if had (remove_recovery io) disk)
  unfolding remove_recovery
  only_if-Replaced io had disk root ancestors stage clear installed = elim (Bool-cases had) [
    | inr h ↦ rw h (
      record {
        root_found = root;
        ancestors_found = ancestors;
        no_stage = inr stage;
        no_recovery = clear h;
      },
      installed,
    )
    | inl h ↦ elim (Option-cases io.remove_recovery_fails) [
      | inl e ↦
          rw (h, e)
            (
              record {
                root_found = root;
                ancestors_found = ancestors;
                no_stage = inr stage;
                no_recovery = refl;
              },
              installed,
            )
      | inr (left, e) ↦ rw (h, e) tt
    ]
  ]

  install-Replaced :
      (io : Io) (fault : CommitFault) (had : Bool) (disk : Disk)
      → ensure_vault_root disk.root ≡ ok tt
      → ensure_namespace_ancestors disk.ancestors ≡ ok tt
      → (had ≡ false → disk.recovery ≡ absent)
      → Replaced (install codecs io fault expected had disk)
  unfolding install
  install-Replaced io fault had disk root ancestors clear =
      let check_target : Action (Unit {0}) =
        reading (λ d. verify_written_namespace codecs expected d.target)
        >> only_if had (remove_recovery io) in
      >>=-outcome_of_reading Replaced (λ d. refuse_if (is_injected fault) injected_failure)
        (λ _. move_into_place io >> check_target) disk (λ e h. tt)
        λ _ _.
          >>=-outcome Replaced (move_into_place io) (λ _. check_target) disk (λ e d h. tt)
            λ _ d' h.
              >>=-outcome_of_reading Replaced
                (λ d. verify_written_namespace codecs expected d.target)
                (λ _. only_if had (remove_recovery io)) d' (λ e h. tt)
                λ _ installed.
                  let same : d' ≡ in_place disk = move_into_place-ok io disk d' h in
                  only_if-Replaced io had d' (ap (λ d. ensure_vault_root d.root) same ∙ root)
                    (ap (λ d. ensure_namespace_ancestors d.ancestors) same ∙ ancestors)
                    (ap (λ d. d.stage) same) (λ n. ap (λ d. d.recovery) same ∙ clear n) installed

  exchange-Replaced :
      (io : Io) (fault : CommitFault) (had : Bool) (disk : Disk)
      → IsReady true disk
      → Replaced (exchange codecs io fault expected had disk)
  unfolding exchange
  exchange-Replaced io fault false disk ready =
      install-Replaced io fault false disk ready.root_found ready.ancestors_found
        (λ _. ready.no_recovery)
  exchange-Replaced io fault true disk ready =
      >>=-outcome Replaced (move_to_recovery io) (λ _. install codecs io fault expected true) disk
        (λ e d h. tt)
        λ _ d' h.
          let same : d' ≡ set_aside disk = move_to_recovery-ok io disk d' h in
          install-Replaced io fault true d'
            (ap (λ d. ensure_vault_root d.root) same ∙ ready.root_found)
            (ap (λ d. ensure_namespace_ancestors d.ancestors) same ∙ ready.ancestors_found)
            (λ n. cc)

module _ (codecs : Codecs) where
  commit_inner-Replaced :
      (io : Io) (fault : CommitFault) (pending : PendingNamespaceTransaction) (disk : Disk)
      → Replaced codecs pending.expected (commit_inner codecs io fault pending disk)
  unfolding commit_inner
  commit_inner-Replaced io fault pending disk =
      let P : Outcome (Unit {0}) → Type 0 = Replaced codecs pending.expected in
      let finish : Action (Unit {0}) =
        reading (verify_snapshot codecs pending.expected pending.snapshot true)
        >> (λ d. exchange codecs io fault pending.expected (stands_at d.target) d) in
      let write : Action (Unit {0}) =
        write_stage codecs io pending.artifacts pending.expected >> finish in
      let create : Action (Unit {0}) = create_parent io >> write in
      let check_recovery : Action (Unit {0}) =
        reading (λ d. reject_interrupted_path d.recovery) >> create in
      let check_stage : Action (Unit {0}) =
        reading (λ d. reject_interrupted_path d.stage) >> check_recovery in
      >>=-outcome_of_reading P (verify_snapshot codecs pending.expected pending.snapshot false)
        (λ _. check_stage) disk (λ e h. tt)
        λ _ _.
          >>=-outcome_of_reading P (λ d. reject_interrupted_path d.stage) (λ _. check_recovery) disk
            (λ e h. tt)
            λ _ _.
              >>=-outcome_of_reading P (λ d. reject_interrupted_path d.recovery) (λ _. create) disk
                (λ e h. tt)
                λ _ _.
                  >>=-outcome P (create_parent io) (λ _. write) disk (λ e d h. tt)
                    λ _ d₁ _.
                      >>=-outcome P (write_stage codecs io pending.artifacts pending.expected)
                        (λ _. finish) d₁ (λ e d h. tt)
                        λ _ d₂ _.
                          >>=-outcome_of_reading P
                            (verify_snapshot codecs pending.expected pending.snapshot true)
                            (λ _ d.
                              exchange codecs io fault pending.expected (stands_at d.target) d)
                            d₂ (λ e h. tt)
                            λ _ verified.
                              exchange-Replaced codecs pending.expected io fault
                                (stands_at d₂.target) d₂
                                (verify_snapshot-Describes codecs pending.expected pending.snapshot
                                  true d₂ verified).0

  module _ (ns : ManagedNamespace) (seed : VaultManifestSeed)
      (artifacts : List GeneratedArtifact) where
    pub preflight-eq-ok :
        (disk : Disk) (pending : PendingNamespaceTransaction)
        → preflight codecs ns seed artifacts disk ≡ ok pending
        → (current : CurrentNamespace) × (inspect_current codecs
              (expected_manifest codecs ns seed artifacts)
              disk
            ≡ ok current)
          × (pending ≡ record {
            expected = expected_manifest codecs ns seed artifacts;
            artifacts = artifacts;
            snapshot = snapshot current;
          })
    unfolding preflight
    preflight-eq-ok disk pending h =
        elim (Result-cases
          (inspect_current codecs (expected_manifest codecs ns seed artifacts) disk)) [
            | inr (e, f) ↦ cc (rw (preflight, f) at h)
            | inl (current, f) ↦ (current, f, sym (ok-inj (rw (preflight, f) at h)))
          ]

    -- Whatever happens between `preflight` and `commit`, and whichever calls fail: where the commit
    -- returns successfully, `check` succeeds on the disk that it leaves, for the same seed and the
    -- same artifacts.
    pub commit-check :
        (before disk disk' : Disk) (io : Io) (pending : PendingNamespaceTransaction)
        → preflight codecs ns seed artifacts before ≡ ok pending
        → commit codecs io pending disk ≡ (ok tt, disk')
        → (r : NamespaceCheck) × (check codecs ns seed artifacts disk' ≡ ok r)
    unfolding commit
    commit-check before disk disk' io pending planned h =
        let E : VaultManifest = expected_manifest codecs ns seed artifacts in
        let same : pending.expected ≡ E =
          ap (λ p. p.expected) (preflight-eq-ok before pending planned).2 in
        let left : IsReady false disk' × Installed codecs pending.expected disk'.target =
          subst (Replaced codecs pending.expected) h
            (commit_inner-Replaced io no_fault pending disk) in
        (check_iff codecs ns seed artifacts disk').1 (
          left.0,
          Installed-IsOwned codecs E (listed-IsSorted codecs ns seed artifacts) disk'.target
              (subst (λ m. Installed codecs m disk'.target) same left.1),
        )
