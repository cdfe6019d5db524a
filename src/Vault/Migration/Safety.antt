-- ===== src/Vault/Migration/Safety.antt =====
-- What a migration leaves on the disk, however its calls go and wherever it is interrupted.
use sim_tooling.Support.{
  ◌≡◌, refl, sym, subst, ap, ◌∙◌, ◌⊎◌, inl, inr, not, ◌||◌, ◌==◌, ok, err, Bool-cases,
}
use sim_tooling.Vault.{Codecs, VaultError}
use sim_tooling.Vault.Manifest.{VaultManifest}
use sim_tooling.Vault.Tree.{Slot}
use sim_tooling.Vault.Namespace.{ManagedNamespace, Disk}
use sim_tooling.Vault.Action.{
  Outcome, Action, reading, next, >>=-outcome, >>=-outcome_of_reading, ◌>>=◌, ◌>>◌,
}
use sim_tooling.Vault.Commit.{
  write_stage, verify_written_namespace, move_to_recovery, move_into_place, remove_recovery,
}
use sim_tooling.Vault.Commit.Safety.{
  Installed, write_stage-target, move_into_place-recovery, remove_recovery-target,
  move_to_recovery-target,
}
use sim_tooling.Vault.Migration.{
  MigrationFault, before_stage_write, after_stage_write, after_stage_verify, before_recovery_rename,
  after_recovery_rename, before_live_rename, after_live_rename, before_manifest_readback,
  after_manifest_readback, before_recovery_cleanup, after_recovery_cleanup, migration_fail, handled,
  VaultCodec, MigrationIo, unstage, restore, on_failure, is_absent,
}
use sim_tooling.Vault.Migration.Source.{
  Source, Planned, current, legacy, MigrationRequest, target_manifest, prepare, verify_staged,
  is_unchanged,
}
use sim_tooling.Vault.Migration.Transaction.{
  failpoint, accept_stage, accept_source, stage_target, clean_up, install_target, rewrite,
  migrate_planned, migrate_v1_inner,
}

-- A step that leaves the target as it is.
abbrev IsSteady {ℓ} : {T : Type ℓ} → Action T → Type 0
IsSteady m = (disk : Disk) → (m disk).1.target ≡ disk.target

>>=-IsSteady {ℓ κ} :
    {S : Type ℓ} {T : Type κ} (m : Action S) (f : S → Action T)
    → IsSteady m
    → ((s : S) → IsSteady (f s))
    → IsSteady (m >>= f)
>>=-IsSteady m f first later disk =
    >>=-outcome (λ o. o.1.target ≡ disk.target) m f disk
      (λ e d h. ap (λ o. o.1.target) (sym h) ∙ first disk)
      λ s d h. later s d ∙ (ap (λ o. o.1.target) (sym h) ∙ first disk)

module _ (codecs : Codecs) (v : VaultCodec) (ns : ManagedNamespace)
    (request : MigrationRequest v) where
  abbrev expected : VaultManifest
  expected = target_manifest codecs v ns request

  accept_stage-IsSteady : (m : MigrationIo) → IsSteady (accept_stage codecs v ns request m)
  unfolding accept_stage
  accept_stage-IsSteady m =
      >>=-IsSteady (reading (λ disk. verify_staged codecs v ns request disk.stage)) _ (λ d. refl)
        λ found d. elim (Bool-cases (found == 0)) [ inl e ↦ rw e refl | inr e ↦ rw e refl ]

  accept_source-IsSteady :
      (m : MigrationIo) (source : Source) → IsSteady (accept_source codecs v ns request m source)
  unfolding accept_source
  accept_source-IsSteady m source =
      >>=-IsSteady (reading (λ disk. is_unchanged codecs v ns request source disk.target)) _
        (λ d. refl) λ same d. elim (Bool-cases same) [ inl e ↦ rw e refl | inr e ↦ rw e refl ]

  stage_target-IsSteady :
      (m : MigrationIo) (fault : MigrationFault) (source : Source)
      → IsSteady (stage_target codecs v ns request m fault source)
  unfolding stage_target
  stage_target-IsSteady m fault source =
      let at : MigrationFault → Action (Unit {0}) = failpoint codecs v ns request fault in
      let write : Action (Unit {0}) = write_stage codecs m.io request.artifacts expected in
      let accept : Action (Unit {0}) = accept_stage codecs v ns request m in
      let unchanged : Action (Unit {0}) = accept_source codecs v ns request m source in
      let last : Action (Unit {0}) = unchanged >> at before_recovery_rename in
      let from_verify : Action (Unit {0}) = at after_stage_verify >> last in
      let from_accept : Action (Unit {0}) = accept >> from_verify in
      let from_written : Action (Unit {0}) = at after_stage_write >> from_accept in
      let from_write : Action (Unit {0}) = write >> from_written in
      >>=-IsSteady (at before_stage_write) (λ _. from_write) (λ d. refl)
        λ _.
          >>=-IsSteady write (λ _. from_written)
            (write_stage-target codecs expected m.io request.artifacts)
            λ _.
              >>=-IsSteady (at after_stage_write) (λ _. from_accept) (λ d. refl)
                λ _.
                  >>=-IsSteady accept (λ _. from_verify) (accept_stage-IsSteady m)
                    λ _.
                      >>=-IsSteady (at after_stage_verify) (λ _. last) (λ d. refl)
                        λ _.
                          >>=-IsSteady unchanged (λ _. at before_recovery_rename)
                            (accept_source-IsSteady m source) λ _ d. refl

  -- What stood at the target is there or at the recovery path, or the new content is installed.
  abbrev pub Held : Slot → Disk → Type 0
  Held before disk =
      (disk.target ≡ before) ⊎ ((disk.recovery ≡ before) ⊎ Installed codecs expected disk.target)

  restore-Held :
      (m : MigrationIo) (before : Slot) (disk : Disk)
      → disk.recovery ≡ before
      → Held before (restore m disk).1
  unfolding restore
  restore-Held m before disk kept =
      elim (Bool-cases (m.restore_fails || not (is_absent disk.target))) [
        | inl e ↦ rw e (inr (inl kept))
        | inr e ↦ rw e (inl kept)
      ]

  unstage-recovery : (m : MigrationIo) (disk : Disk) → (unstage m disk).1.recovery ≡ disk.recovery
  unfolding unstage
  unstage-recovery m disk = elim (Bool-cases m.unstage_fails) [
    | inl e ↦ rw e refl
    | inr e ↦ rw e refl
  ]

  undo-Held :
      (m : MigrationIo) (before : Slot) (disk : Disk)
      → disk.recovery ≡ before
      → Held before ((unstage m >> restore m) disk).1
  undo-Held m before disk kept =
      >>=-outcome (λ o. Held before o.1) (unstage m) (λ _. restore m) disk
        (λ e d h. inr (inl (ap (λ o. o.1.recovery) (sym h) ∙ (unstage-recovery m disk ∙ kept))))
        λ _ d h.
          restore-Held m before d
            (ap (λ o. o.1.recovery) (sym h) ∙ (unstage-recovery m disk ∙ kept))

  -- A step with its cleanup, followed by more.
  on_failure-Held {ℓ} :
      {T : Type ℓ} (before : Slot) (cleanup step : Action (Unit {0})) (rest : Action T)
      (disk : Disk)
      → ((e : VaultError) (d : Disk) → step disk ≡ (err e, d) → Held before (cleanup d).1)
      → ((d : Disk) → step disk ≡ (ok tt, d) → Held before (rest d).1)
      → Held before ((on_failure cleanup step >> rest) disk).1
  on_failure-Held before cleanup step rest disk failed went = of_outcome (step disk) refl
    where
      of_outcome :
          (o : Outcome (Unit {0}))
          → step disk ≡ o
          → Held before (next (λ _. rest) (handled cleanup o)).1
      of_outcome (ok tt, d) h = went d h
      of_outcome (err e, d) h = failed e d h

  clean_up-Held :
      (m : MigrationIo) (fault : MigrationFault) (before : Slot) (disk : Disk)
      → Installed codecs expected disk.target
      → Held before (clean_up codecs v ns request m fault disk).1
  unfolding clean_up
  clean_up-Held m fault before disk installed =
      let P : Outcome (Unit {0}) → Type 0 = λ o. Held before o.1 in
      let at : MigrationFault → Action (Unit {0}) = failpoint codecs v ns request fault in
      let cleaned : Action (Unit {0}) = remove_recovery m.io >> at after_recovery_cleanup in
      let from_cleanup : Action (Unit {0}) = at before_recovery_cleanup >> cleaned in
      >>=-outcome_of_reading P (λ _. migration_fail fault after_manifest_readback)
        (λ _. from_cleanup) disk (λ _ _. inr (inr installed))
        λ _ _.
          >>=-outcome_of_reading P (λ _. migration_fail fault before_recovery_cleanup)
            (λ _. cleaned) disk (λ _ _. inr (inr installed))
            λ _ _.
              let same =
                >>=-IsSteady (remove_recovery m.io) (λ _. at after_recovery_cleanup)
                  (remove_recovery-target m.io) (λ _ d. refl) disk in
              inr (inr (subst (Installed codecs expected) (sym same) installed))

  install_target-Held :
      (m : MigrationIo) (fault : MigrationFault) (before : Slot) (disk : Disk)
      → disk.recovery ≡ before
      → Held before (install_target codecs v ns request m fault disk).1
  unfolding install_target
  install_target-Held m fault before disk kept =
      let P : Outcome (Unit {0}) → Type 0 = λ o. Held before o.1 in
      let at : MigrationFault → Action (Unit {0}) = failpoint codecs v ns request fault in
      let verify : Action (Unit {0}) =
        reading (λ d. verify_written_namespace codecs expected d.target) in
      let from_read : Action (Unit {0}) = clean_up codecs v ns request m fault in
      let verified : Action (Unit {0}) = on_failure (unstage m >> restore m) verify >> from_read in
      let from_readback : Action (Unit {0}) = at before_manifest_readback >> verified in
      let from_live : Action (Unit {0}) = at after_live_rename >> from_readback in
      let live : Action (Unit {0}) = on_failure (restore m) (move_into_place m.io) >> from_live in
      let before_live : Action (Unit {0}) = at before_live_rename >> live in
      let backed : VaultError → (d : Disk) → d.recovery ≡ before → Held before d =
        λ _ d same. inr (inl same) in
      let read_back : (d : Disk) → d.recovery ≡ before → Held before (from_live d).1 = λ d same.
        >>=-outcome_of_reading P (λ _. migration_fail fault after_live_rename) (λ _. from_readback)
          d (λ e _. backed e d same)
          λ _ _.
            >>=-outcome_of_reading P (λ _. migration_fail fault before_manifest_readback)
              (λ _. verified) d (λ e _. backed e d same)
              λ _ _.
                on_failure-Held before (unstage m >> restore m) verify from_read d
                  (λ e d' h. undo-Held m before d' (ap (λ o. o.1.recovery) (sym h) ∙ same))
                  (λ d' h. clean_up-Held m fault before d' (
                    subst (λ x. Installed codecs expected x.target) (ap (λ o. o.1) h)
                      (ap (λ o. o.0) h))) in
      >>=-outcome_of_reading P (λ _. migration_fail fault after_recovery_rename) (λ _. before_live)
        disk (λ e _. backed e disk kept)
        λ _ _.
          >>=-outcome_of_reading P (λ _. migration_fail fault before_live_rename) (λ _. live) disk
            (λ e _. backed e disk kept)
            λ _ _.
              on_failure-Held before (restore m) (move_into_place m.io) from_live disk
                (λ e d h.
                  restore-Held m before d
                    (ap (λ o. o.1.recovery) (sym h) ∙ (move_into_place-recovery m.io disk ∙ kept)))
                (λ d h.
                  read_back d
                    (ap (λ o. o.1.recovery) (sym h) ∙ (move_into_place-recovery m.io disk ∙ kept)))

  rewrite-Held :
      (m : MigrationIo) (fault : MigrationFault) (source : Source) (disk : Disk)
      → Held disk.target (rewrite codecs v ns request m fault source disk).1
  unfolding rewrite
  rewrite-Held m fault source disk =
      let P : Outcome (Unit {0}) → Type 0 = λ o. Held disk.target o.1 in
      let install : Action (Unit {0}) = install_target codecs v ns request m fault in
      let steady = stage_target-IsSteady m fault source disk in
      >>=-outcome P (stage_target codecs v ns request m fault source)
        (λ _. move_to_recovery m.io >> install) disk
        (λ e d h. inl (ap (λ o. o.1.target) (sym h) ∙ steady))
        λ _ d h.
          let same : d.target ≡ disk.target = ap (λ o. o.1.target) (sym h) ∙ steady in
          >>=-outcome P (move_to_recovery m.io) (λ _. install) d
            (λ e d' h'. elim (move_to_recovery-target m.io d) [
              | inl unmoved ↦ inl (ap (λ o. o.1.target) (sym h' ∙ unmoved) ∙ same)
              | inr moved ↦ inr (inl (ap (λ o. o.1.recovery) (sym h') ∙ (moved ∙ same)))
            ])
            λ _ d' h'. elim (move_to_recovery-target m.io d) [
              | inl unmoved ↦ cc
              | inr moved ↦
                  install_target-Held m fault disk.target d'
                    (ap (λ o. o.1.recovery) (sym h') ∙ (moved ∙ same))
            ]

  migrate_planned-Held :
      (m : MigrationIo) (fault : MigrationFault) (planned : Planned) (disk : Disk)
      → Held disk.target (migrate_planned codecs v ns request m fault planned disk).1
  migrate_planned-Held m fault (current diff) disk = inl refl
  migrate_planned-Held m fault (legacy source) disk =
      >>=-outcome (λ o. Held disk.target o.1) (rewrite codecs v ns request m fault source) _ disk
        (λ e d h. subst (λ o. Held disk.target o.1) h (rewrite-Held m fault source disk))
        λ _ d h. subst (λ o. Held disk.target o.1) h (rewrite-Held m fault source disk)

  -- Whichever calls of a migration fail, whatever they leave behind, and at whichever of its fifteen
  -- failpoints it is interrupted, if at any: what stood at the target stands there or at the
  -- recovery path unchanged, or the target is a directory that passed the verification against the
  -- new manifest.
  pub migrate_v1_inner-Held :
      (m : MigrationIo) (fault : MigrationFault) (disk : Disk)
      → Held disk.target (migrate_v1_inner codecs v ns request m fault disk).1
  unfolding migrate_v1_inner
  migrate_v1_inner-Held m fault disk =
      >>=-outcome_of_reading (λ o. Held disk.target o.1) (prepare codecs v ns request fault)
        (migrate_planned codecs v ns request m fault) disk (λ e h. inl refl)
        λ planned h. migrate_planned-Held m fault planned disk
