-- ===== src/Bench/Run/Lifecycle/Complete.antt =====
-- What `run` returns as a whole.
use sim_tooling.Support.{
  ap₂, ℕ, suc, ◌+◌, ◌^◌, ◌<◌, String, ◌≡◌, refl, ap, sym, subst, ◌∙◌, Bool, List, [], ◌∷◌, ◌++◌,
  count, ok, inl, inr, >>=-ok-elim, ok-inj, one_if,
}
use sim_tooling.Bench.Float.{F64}
use sim_tooling.Bench.Content.{Codec}
use sim_tooling.Bench.Spec.{BenchSpec}
use sim_tooling.Bench.Artifact.{RawObservation}
use sim_tooling.Bench.Run.Shuffle.{Arm, candidate, schedule}
use sim_tooling.Bench.Run.Shuffle.Balance.{is_baseline, is_candidate, schedule_balanced}
use sim_tooling.Bench.Run.Calibration.{RunConfig, validate, elapsed, calibrated_iterations}
use sim_tooling.Bench.Run.Calibration.Bounds.{
  IsValid, IsChosen, validate_iff, calibrated_iterations_lem,
}
use sim_tooling.Bench.Run.Lifecycle.{
  setup, calibration, warmup, measured, completed, Workload, CalibrationDecision, SampleRecord,
  map_err, invalid_config, setup_failed, calibration_failed, bad_clock, bad_schedule, warm_up,
  measure, RunRecord, calibrate, run,
}
use sim_tooling.Bench.Run.Lifecycle.Record.{
  IsWarmup, IsMeasured, warm_up-IsWarmup, measure-IsMeasured, map_err-ok, elapsed-lem,
}

calibrated_iterations-IsChosen :
    (probe_ns : ℕ) (c : RunConfig) (n : ℕ)
    → IsValid c
    → calibrated_iterations probe_ns c ≡ ok n
    → IsChosen probe_ns c n
calibrated_iterations-IsChosen probe_ns c n v h = elim (calibrated_iterations_lem probe_ns c v) [
  | inl (_, e) ↦ cc
  | inr (inl (_, _, e)) ↦ cc
  | inr (inr (_, _, (m, e, chosen))) ↦ subst (IsChosen probe_ns c) (ok-inj (sym e ∙ h)) chosen
]

module _ (workload : Workload) where
  open workload use {World, now_ns, prepare, sample}

  -- The record of the probe from the world `w`, the decision, and the world after the probe.
  pub record IsCalibrated (config : RunConfig) (w : World) (probe : SampleRecord)
      (decision : CalibrationDecision) (after : World) : Type 0 where
    pub in_phase : probe.phase ≡ calibration
    pub of_arm : probe.arm ≡ candidate
    pub requested : probe.iterations ≡ config.calibration_probe_iterations
    pub returned :
        (sample candidate calibration config.calibration_probe_iterations (now_ns w).0).1
        ≡ ok probe.counters
    pub status : probe.status ≡ completed
    pub elapsed_ns :
        (now_ns w).1 + probe.duration_ns
        ≡ (now_ns
            (sample candidate calibration config.calibration_probe_iterations (now_ns w).0).0).1
    pub timed : probe.duration_ns ≡ decision.probe_duration_ns
    pub chosen : IsChosen decision.probe_duration_ns config decision.selected_iterations
    pub ended :
        after
        ≡ (now_ns
            (sample candidate calibration config.calibration_probe_iterations (now_ns w).0).0).0

module _ (workload : Workload) (f64 : F64) {Value : Type 0} (codec : Codec f64.F Value) where
  open workload use {World}

  calibrate-IsCalibrated :
      (config : RunConfig) (w : World) (r : SampleRecord × CalibrationDecision × World)
      → IsValid config
      → calibrate workload f64 codec config w ≡ ok r
      → IsCalibrated workload config w r.0 r.1 r.2
  unfolding calibrate
  calibrate-IsCalibrated config w r v h =
      let first = workload.now_ns w in
      let second =
        workload.sample candidate calibration config.calibration_probe_iterations first.0 in
      let third = workload.now_ns second.0 in
      >>=-ok-elim (map_err calibration_failed second.1) _ h λ counters returned h₁.
        >>=-ok-elim (map_err bad_clock (elapsed first.1 third.1)) _ h₁ λ duration_ns timed h₂.
          >>=-ok-elim (map_err bad_clock (calibrated_iterations duration_ns config)) _ h₂
            λ n selected h₃.
              subst (λ x. IsCalibrated workload config w x.0 x.1 x.2) (ok-inj h₃)
                (record {
                  in_phase = refl;
                  of_arm = refl;
                  requested = refl;
                  returned = map_err-ok calibration_failed second.1 returned;
                  status = refl;
                  elapsed_ns =
                      (elapsed-lem first.1 third.1
                        (map_err-ok bad_clock (elapsed first.1 third.1) timed)).1;
                  ended = refl;
                  timed = refl;
                  chosen =
                      calibrated_iterations-IsChosen duration_ns config n v
                        (map_err-ok bad_clock (calibrated_iterations duration_ns config) selected);
                })

  -- What the record of a run holds, for its specification and configuration.
  pub record IsRun (spec : BenchSpec f64 Value) (config : RunConfig) (w : World)
      (r : RunRecord workload f64 codec) : Type 0 where
    pub valid : IsValid config
    pub phases_entered : r.phases ≡ setup ∷ calibration ∷ warmup ∷ measured ∷ []
    pub prepared : (workload.prepare w).1 ≡ ok tt
    pub probe : SampleRecord
    pub ready : World
    pub warm : World
    pub warmups : List SampleRecord
    pub attempted : r.attempts ≡ probe ∷ warmups ++ r.samples
    pub calibrated : IsCalibrated workload config (workload.prepare w).0 probe r.calibration ready
    pub warmed :
        IsWarmup workload config r.calibration.selected_iterations 0
          spec.sampling_plan.warmup_samples ready warmups warm
    pub scheduled :
        schedule spec.sampling_plan.measured_samples spec.sampling_plan.seed
        ≡ ok r.realized_schedule
    pub sampled :
        IsMeasured workload f64 codec config spec.content_key r.calibration.selected_iterations 0
          r.realized_schedule warm r.samples r.observations

  -- A run that returns has entered the four phases in their order under a valid configuration, after
  -- a preparation that succeeded; its iteration count is the one chosen from the probe; its attempts
  -- are the probe, the alternating warmups and the samples, which follow the seeded schedule; each is
  -- made from the world that the one before left, lasts from one reading of the clock to the next,
  -- and holds the counters, and is completed or timed out by its duration, where the workload
  -- returned, and is failed with the kept diagnostic where it did not; and the observations are the
  -- durations of exactly the completed samples.
  pub run-IsRun :
      (spec : BenchSpec f64 Value) (config : RunConfig) (w : World)
      (r : RunRecord workload f64 codec)
      → run workload f64 codec spec config w ≡ ok r
      → IsRun spec config w r
  unfolding run
  run-IsRun spec config w r h =
      let plan = spec.sampling_plan in
      let prepared = workload.prepare w in
      >>=-ok-elim (map_err invalid_config (validate config)) _ h λ _ accepted h₁.
        >>=-ok-elim (map_err setup_failed prepared.1) _ h₁ λ _ ready h₂.
          >>=-ok-elim (calibrate workload f64 codec config prepared.0) _ h₂ λ c calibrated h₃.
            >>=-ok-elim (warm_up workload config c.1.selected_iterations 0 plan.warmup_samples c.2)
              _ h₃
              λ u warmed h₄.
                >>=-ok-elim (map_err bad_schedule (schedule plan.measured_samples plan.seed)) _ h₄
                  λ arms scheduled h₅.
                    >>=-ok-elim
                      (measure workload f64 codec config spec.content_key c.1.selected_iterations 0
                        arms u.1)
                      _ h₅
                      λ m sampled h₆.
                        let valid =
                          (validate_iff config).0
                            (map_err-ok invalid_config (validate config) accepted) in
                        subst (IsRun spec config w) (ok-inj h₆) (record {
                          valid = valid;
                          phases_entered = refl;
                          prepared = map_err-ok setup_failed prepared.1 ready;
                          probe = c.0;
                          ready = c.2;
                          warm = u.1;
                          warmups = u.0;
                          attempted = refl;
                          calibrated = calibrate-IsCalibrated config prepared.0 c valid calibrated;
                          warmed =
                              warm_up-IsWarmup workload config c.1.selected_iterations 0
                                plan.warmup_samples c.2 u warmed;
                          scheduled =
                              map_err-ok bad_schedule (schedule plan.measured_samples plan.seed)
                                scheduled;
                          sampled =
                              measure-IsMeasured workload f64 codec config spec.content_key
                                c.1.selected_iterations 0 arms u.1 m sampled;
                        })

  measured-count :
      (p : Arm → Bool) (config : RunConfig) (key : String) (n index : ℕ) (arms : List Arm)
      (w : World) (rs : List SampleRecord) (os : List (RawObservation f64))
      → IsMeasured workload f64 codec config key n index arms w rs os
      → count (λ r. p r.arm) rs ≡ count p arms
  measured-count p config key n index [] w rs os (e, _) = rw e refl
  measured-count p config key n index (arm ∷ arms) w rs os
        (r, next, rest, observed, later, e, _, a, _, more) =
      rw e (
        ap₂ ◌+◌ (ap (λ x. one_if (p x)) a.of_arm)
          (measured-count p config key n (suc index) arms next rest later more))

  -- A run that returns, under a `u32` sample count, has as many samples of the baseline as the
  -- specification demands, and as many of the candidate.
  pub run_balanced :
      (spec : BenchSpec f64 Value) (config : RunConfig) (w : World)
      (r : RunRecord workload f64 codec)
      → spec.sampling_plan.measured_samples < 2 ^ 32
      → run workload f64 codec spec config w ≡ ok r
      → (count (λ s. is_baseline s.arm) r.samples ≡ spec.sampling_plan.measured_samples)
        × (count (λ s. is_candidate s.arm) r.samples ≡ spec.sampling_plan.measured_samples)
  run_balanced spec config w r small h =
      let t = run-IsRun spec config w r h in
      let plan = spec.sampling_plan in
      let (arms, ends, b, c, _) = schedule_balanced plan.measured_samples plan.seed small in
      let same : arms ≡ r.realized_schedule = ok-inj (sym ends ∙ t.scheduled) in
      let counts = λ (p : Arm → Bool).
        measured-count p config spec.content_key r.calibration.selected_iterations 0
          r.realized_schedule t.warm r.samples r.observations t.sampled
        ∙ ap (count p) (sym same) in
      (counts is_baseline ∙ b, counts is_candidate ∙ c)
