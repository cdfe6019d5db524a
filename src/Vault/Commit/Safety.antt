-- ===== src/Vault/Commit/Safety.antt =====
-- What a commit leaves on the disk, however its calls go.
use sim_tooling.Support.{
  ◌≡◌, refl, sym, subst, ap, ◌∙◌, ◌⊎◌, inl, inr, Bool, true, false, List, ok, err, refuse_if,
  Bool-cases, Option-cases, Result-cases, arith,
}
use sim_tooling.Vault.{Codecs, injected_failure, io_failed}
use sim_tooling.Vault.Artifacts.{GeneratedArtifact}
use sim_tooling.Vault.Manifest.{VaultManifest}
use sim_tooling.Vault.Tree.{Slot, absent, holds, Node, reject_interrupted_path}
use sim_tooling.Vault.Namespace.{
  Disk, NamespaceSnapshot, snapshot, CurrentNamespace, owned, missing, empty_directory,
  inspect_current_inner,
}
use sim_tooling.Vault.Namespace.Inspection.{IsReady, Describes, inspect_current_inner-Describes}
use sim_tooling.Vault.Action.{Outcome, Action, reading, >>=-outcome, >>=-outcome_of_reading, ◌>>◌}
use sim_tooling.Vault.Commit.{
  Io, CommitFault, PendingNamespaceTransaction, is_injected, create_parent, write_files,
  write_stage, stands_at, move_to_recovery, move_into_place, remove_recovery, only_if,
  same_snapshot, verify_written_namespace, verify_snapshot, install, exchange, commit_inner, staged,
}

create_parent-target : (io : Io) (disk : Disk) → (create_parent io disk).1.target ≡ disk.target
unfolding create_parent
create_parent-target io disk = elim (Option-cases io.create_parent_fails) [
  | inl e ↦ rw e refl
  | inr (left, e) ↦ rw e refl
]

pub move_into_place-recovery :
    (io : Io) (disk : Disk) → (move_into_place io disk).1.recovery ≡ disk.recovery
unfolding move_into_place
move_into_place-recovery io disk = elim (Bool-cases io.rename_stage_fails) [
  | inl e ↦ rw e refl
  | inr e ↦ rw e refl
]

pub remove_recovery-target :
    (io : Io) (disk : Disk) → (remove_recovery io disk).1.target ≡ disk.target
unfolding remove_recovery
remove_recovery-target io disk = elim (Option-cases io.remove_recovery_fails) [
  | inl e ↦ rw e refl
  | inr (left, e) ↦ rw e refl
]

-- The first rename either fails and changes nothing, or puts the target at the recovery path.
pub move_to_recovery-target :
    (io : Io) (disk : Disk)
    → (move_to_recovery io disk ≡ (err io_failed, disk))
      ⊎ ((move_to_recovery io disk).1.recovery ≡ disk.target)
unfolding move_to_recovery
move_to_recovery-target io disk = elim (Bool-cases io.rename_target_fails) [
  | inl e ↦ inl (rw e refl)
  | inr e ↦ inr (rw e refl)
]

module _ (codecs : Codecs) (expected : VaultManifest) where
  write_files-target :
      (io : Io) (artifacts : List GeneratedArtifact) (disk : Disk)
      → (write_files codecs io artifacts expected disk).1.target ≡ disk.target
  unfolding write_files
  write_files-target io artifacts disk = elim (Option-cases io.write_stage_fails) [
    | inr (left, e) ↦ rw e refl
    | inl e ↦ elim (Result-cases (staged codecs artifacts expected disk.stage)) [
      | inl (slot, f) ↦ rw (write_files, e, f) refl
      | inr ((x, left), f) ↦ rw (write_files, e, f) refl
    ]
  ]

  pub write_stage-target :
      (io : Io) (artifacts : List GeneratedArtifact) (disk : Disk)
      → (write_stage codecs io artifacts expected disk).1.target ≡ disk.target
  unfolding write_stage
  write_stage-target io artifacts disk =
      >>=-outcome (λ o. o.1.target ≡ disk.target) (write_files codecs io artifacts expected)
        (λ _. reading λ disk. verify_written_namespace codecs expected disk.stage) disk
        (λ e disk' h. ap (λ o. o.1.target) (sym h) ∙ write_files-target io artifacts disk)
        λ _ disk' h. ap (λ o. o.1.target) (sym h) ∙ write_files-target io artifacts disk

  -- A directory that passed `verify_written_namespace`.
  abbrev pub Installed : Slot → Type 0
  Installed slot = verify_written_namespace codecs expected slot ≡ ok tt

  -- What stood at the target is there or at the recovery path, or the new content is installed.
  abbrev pub Survives : Slot → Outcome (Unit {0}) → Type 0
  Survives before (result, disk) =
      (disk.target ≡ before) ⊎ ((disk.recovery ≡ before) ⊎ Installed disk.target)

  cleaned-Survives :
      (io : Io) (had : Bool) (before : Slot) (disk : Disk)
      → Installed disk.target
      → Survives before (only_if had (remove_recovery io) disk)
  cleaned-Survives io true before disk installed =
      inr (inr (subst Installed (sym (remove_recovery-target io disk)) installed))
  cleaned-Survives io false before disk installed = inr (inr installed)

  -- What follows the first rename, once the old content stands at the recovery path.
  install-Survives :
      (io : Io) (fault : CommitFault) (had : Bool) (before : Slot) (disk : Disk)
      → disk.recovery ≡ before
      → Survives before (install codecs io fault expected had disk)
  unfolding install
  install-Survives io fault had before disk kept =
      >>=-outcome_of_reading (Survives before) (λ d. refuse_if (is_injected fault) injected_failure)
        (λ _.
          move_into_place io
          >> (reading (λ d. verify_written_namespace codecs expected d.target)
              >> only_if had (remove_recovery io)))
        disk (λ e h. inr (inl kept))
        λ _ h.
          >>=-outcome (Survives before) (move_into_place io)
            (λ _.
              reading (λ d. verify_written_namespace codecs expected d.target)
              >> only_if had (remove_recovery io))
            disk
            (λ e disk' h.
              inr (inl (ap (λ o. o.1.recovery) (sym h) ∙ move_into_place-recovery io disk ∙ kept)))
            λ _ disk' h.
              >>=-outcome_of_reading (Survives before)
                (λ d. verify_written_namespace codecs expected d.target)
                (λ _. only_if had (remove_recovery io)) disk'
                (λ e _.
                  inr (
                    inl (ap (λ o. o.1.recovery) (sym h) ∙ move_into_place-recovery io disk ∙ kept)))
                λ _ installed. cleaned-Survives io had before disk' installed

  -- Nothing or something stands at the target, and nothing at the recovery path.
  exchange-Survives :
      (io : Io) (fault : CommitFault) (disk : Disk)
      → disk.recovery ≡ absent
      → (disk.target ≡ absent) ⊎ ((node : Node) × (disk.target ≡ holds node))
      → Survives disk.target (exchange codecs io fault expected (stands_at disk.target) disk)
  unfolding exchange
  exchange-Survives io fault disk clear (inl nothing) =
      rw (ap stands_at nothing)
        (install-Survives io fault false disk.target disk (clear ∙ sym nothing))
  exchange-Survives io fault disk clear (inr (node, stands)) = rw (ap stands_at stands) (
      >>=-outcome (Survives disk.target) (move_to_recovery io)
        (λ _. install codecs io fault expected true) disk
        (λ e disk' h. elim (move_to_recovery-target io disk) [
          | inl same ↦ inl (ap (λ o. o.1.target) (sym h ∙ same))
          | inr kept ↦ inr (inl (ap (λ o. o.1.recovery) (sym h) ∙ kept))
        ])
        λ _ disk' h. elim (move_to_recovery-target io disk) [
          | inl same ↦ cc
          | inr kept ↦
              install-Survives io fault true disk.target disk'
                (ap (λ o. o.1.recovery) (sym h) ∙ kept)
        ])

  Describes-cases :
      (slot : Slot) (current : CurrentNamespace)
      → Describes codecs expected slot current
      → (slot ≡ absent) ⊎ ((node : Node) × (slot ≡ holds node))
  Describes-cases slot missing d = inl d
  Describes-cases slot empty_directory d = inr (d.node, d.stands)
  Describes-cases slot (owned digest manifest files) d = inr (d.node, d.stands)

  pub verify_snapshot-Describes :
      (taken : NamespaceSnapshot) (allow_stage : Bool) (disk : Disk)
      → verify_snapshot codecs expected taken allow_stage disk ≡ ok tt
      → IsReady allow_stage disk
        × ((current : CurrentNamespace) × (inspect_current_inner codecs expected allow_stage true
                disk
              ≡ ok current)
            × Describes codecs expected disk.target current
            × (same_snapshot (snapshot current) taken ≡ true))
  unfolding verify_snapshot
  verify_snapshot-Describes taken allow_stage disk h =
      elim (Result-cases (inspect_current_inner codecs expected allow_stage true disk)) [
        | inr (e, failed) ↦ cc (rw (verify_snapshot, failed) at h)
        | inl (current, seen) ↦
            let (ready, described) =
              inspect_current_inner-Describes codecs expected allow_stage disk current seen in
            let unchanged : same_snapshot (snapshot current) taken ≡ true =
              ground (arith, rw (verify_snapshot, seen) at h) in
            (ready, (current, seen, described, unchanged))
      ]

  finish-Survives :
      (io : Io) (fault : CommitFault) (taken : NamespaceSnapshot) (before : Slot) (disk : Disk)
      → disk.target ≡ before
      → Survives before (
          (reading (verify_snapshot codecs expected taken true)
              >> (λ d. exchange codecs io fault expected (stands_at d.target) d))
            disk)
  finish-Survives io fault taken before disk same =
      >>=-outcome_of_reading (Survives before) (verify_snapshot codecs expected taken true)
        (λ _ d. exchange codecs io fault expected (stands_at d.target) d) disk (λ e h. inl same)
        λ _ verified.
          let seen = verify_snapshot-Describes taken true disk verified in
          subst (λ b. Survives b (exchange codecs io fault expected (stands_at disk.target) disk))
            same
            (exchange-Survives io fault disk seen.0.no_recovery
              (Describes-cases disk.target seen.1.0 seen.1.2))

module _ (codecs : Codecs) where
  -- Whichever calls of a commit fail, with or without the injected failure, and whatever they leave
  -- of the stage, the ancestors and the recovery copy: what stood at the target stands there or at
  -- the recovery path unchanged, or the target is a directory that passed the verification against
  -- the expected manifest.
  pub commit_inner-Survives :
      (io : Io) (fault : CommitFault) (pending : PendingNamespaceTransaction) (disk : Disk)
      → Survives codecs pending.expected disk.target (commit_inner codecs io fault pending disk)
  unfolding commit_inner
  commit_inner-Survives io fault pending disk =
      let P : Outcome (Unit {0}) → Type 0 = Survives codecs pending.expected disk.target in
      let finish : Action (Unit {0}) =
        reading (verify_snapshot codecs pending.expected pending.snapshot true)
        >> (λ d. exchange codecs io fault pending.expected (stands_at d.target) d) in
      let write : Action (Unit {0}) =
        write_stage codecs io pending.artifacts pending.expected >> finish in
      let create : Action (Unit {0}) = create_parent io >> write in
      let check_recovery : Action (Unit {0}) =
        reading (λ d. reject_interrupted_path d.recovery) >> create in
      let check_stage : Action (Unit {0}) =
        reading (λ d. reject_interrupted_path d.stage) >> check_recovery in
      >>=-outcome_of_reading P (verify_snapshot codecs pending.expected pending.snapshot false)
        (λ _. check_stage) disk (λ e h. inl refl)
        λ _ _.
          >>=-outcome_of_reading P (λ d. reject_interrupted_path d.stage) (λ _. check_recovery) disk
            (λ e h. inl refl)
            λ _ _.
              >>=-outcome_of_reading P (λ d. reject_interrupted_path d.recovery) (λ _. create) disk
                (λ e h. inl refl)
                λ _ _.
                  >>=-outcome P (create_parent io) (λ _. write) disk
                    (λ e d₁ h. inl (ap (λ o. o.1.target) (sym h) ∙ create_parent-target io disk))
                    λ _ d₁ h₁.
                      let t₁ : d₁.target ≡ disk.target =
                        ap (λ o. o.1.target) (sym h₁) ∙ create_parent-target io disk in
                      let t₂ =
                        write_stage-target codecs pending.expected io pending.artifacts d₁ ∙ t₁ in
                      >>=-outcome P (write_stage codecs io pending.artifacts pending.expected)
                        (λ _. finish) d₁ (λ e d₂ h. inl (ap (λ o. o.1.target) (sym h) ∙ t₂))
                        λ _ d₂ h₂.
                          finish-Survives codecs pending.expected io fault pending.snapshot
                            disk.target d₂ (ap (λ o. o.1.target) (sym h₂) ∙ t₂)
