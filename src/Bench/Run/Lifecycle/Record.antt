-- ===== src/Bench/Run/Lifecycle/Record.antt =====
-- What the record of a run that returns holds.
use Prim.Native.String.{len, slice, ◌++◌ as cat}
use sim_tooling.Support.{
  ℕ, zero, suc, ◌%◌, ◌≤◌, ◌<◌, String, ◌≡◌, refl, ap, sym, subst, ◌==◌, ltb, ltb→lt, Option, none,
  some, List, [], ◌∷◌, ◌++◌, ◌+◌, ◌⊎◌, Result, ok, err, if◌then◌else◌, arith, Bool-cases, inl, inr,
  >>=-ok-elim, ok-inj,
}
use sim_tooling.Bench.Float.{F64}
use sim_tooling.Bench.Content.{Codec}
use sim_tooling.Bench.Spec.{nanoseconds}
use sim_tooling.Bench.Artifact.{RawObservation, new_observation}
use sim_tooling.Bench.Artifact.Constructors.{IsObservation, new_observation-IsObservation}
use sim_tooling.Bench.Run.Shuffle.{Arm, baseline, candidate}
use sim_tooling.Bench.Run.Calibration.{RunConfig, elapsed}
use sim_tooling.Bench.Run.Lifecycle.{
  RunPhase, warmup, measured, Counters, Workload, SampleStatus, completed, timed_out, failed,
  SampleRecord, RunError, map_err, bad_clock, bad_observation, bounded, classify_attempt, arm_name,
  index_u32, attempt, warm_up, observe, measure,
}

-- What is kept of a diagnostic: the whole of one of at most 4096 bytes, and the first 4096 bytes of
-- a longer one.
abbrev pub IsKept : String → String → Type 0
IsKept diagnostic kept =
    ((len diagnostic ≤ 4096) × (kept ≡ diagnostic))
    ⊎ ((4096 < len diagnostic) × (kept ≡ slice diagnostic 0 4096) × (len kept ≡ 4096))

bounded-IsKept : (d t : String) → bounded d ≡ ok t → IsKept d t
unfolding bounded
bounded-IsKept d t h = elim (Bool-cases (ltb 4096 (len d))) [
  | inl e ↦ elim (Bool-cases (len (slice d 0 4096) == 4096)) [
    | inl f ↦
        subst (IsKept d) (ok-inj (rw (e, f) at h))
          (inr (omega (arith, ltb→lt _ _ e), refl, ground arith))
    | inr f ↦ cc (rw (e, f) at h)
  ]
  | inr e ↦ subst (IsKept d) (ok-inj (rw e at h)) (inl (ground arith, refl))
]

-- How a record follows from what the workload returned and the duration.
abbrev pub IsClassified :
    ℕ → ℕ → ℕ → Result String Counters → Counters × Option ℕ × SampleStatus → Type 0
IsClassified timeout_ns iterations duration_ns (ok counters) c =
    (c.0 ≡ counters)
    × (c.1 ≡ some iterations)
    × (((duration_ns ≤ timeout_ns) × (c.2 ≡ completed))
        ⊎ ((timeout_ns < duration_ns) × (c.2 ≡ timed_out)))
IsClassified timeout_ns iterations duration_ns (err e) c =
    (c.0 ≡ []) × (c.1 ≡ none) × ((kept : String) × (c.2 ≡ failed kept) × IsKept e kept)

classify_attempt-IsClassified :
    (result : Result String Counters) (iterations duration_ns timeout_ns : ℕ)
    (c : Counters × Option ℕ × SampleStatus)
    → classify_attempt result iterations duration_ns timeout_ns ≡ ok c
    → IsClassified timeout_ns iterations duration_ns result c
unfolding classify_attempt
classify_attempt-IsClassified (ok counters) iterations duration_ns timeout_ns c h =
    elim (Bool-cases (ltb timeout_ns duration_ns)) [
      | inl e ↦
          subst (IsClassified timeout_ns iterations duration_ns (ok counters)) (ok-inj (rw e at h))
            (refl, refl, inr (omega (arith, ltb→lt _ _ e), refl))
      | inr e ↦
          subst (IsClassified timeout_ns iterations duration_ns (ok counters)) (ok-inj (rw e at h))
            (refl, refl, inl (ground arith, refl))
    ]
classify_attempt-IsClassified (err e) iterations duration_ns timeout_ns c h =
    >>=-ok-elim (bounded e) _ h λ d short h₁.
      subst (IsClassified timeout_ns iterations duration_ns (err e)) (ok-inj h₁)
        (refl, refl, (d, refl, bounded-IsKept e d short))

pub elapsed-lem :
    (start end : ℕ) {d : ℕ} → elapsed start end ≡ ok d → (start ≤ end) × (start + d ≡ end)
unfolding elapsed
elapsed-lem start end h = ground arith

pub map_err-ok :
    {E T : Type 0} (f : E → RunError) (r : Result E T) {t : T} → map_err f r ≡ ok t → r ≡ ok t
map_err-ok f (ok t) h = cc
map_err-ok f (err e) h = cc

module _ (workload : Workload) where
  open workload use {World, now_ns, sample}

  -- The record of one attempt from the world `w`, and the world after it: one sample between two
  -- readings of the clock.
  pub record IsAttempt (config : RunConfig) (n : ℕ) (phase : RunPhase) (arm : Arm) (index : ℕ)
      (w : World) (r : SampleRecord) (after : World) : Type 0 where
    pub indexed : r.schedule_index ≡ index
    pub in_phase : r.phase ≡ phase
    pub of_arm : r.arm ≡ arm
    pub requested : r.iterations ≡ n
    pub timed : (now_ns w).1 + r.duration_ns ≡ (now_ns (sample arm phase n (now_ns w).0).0).1
    pub classified :
        IsClassified config.sample_timeout_ns n r.duration_ns
          (sample arm phase n (now_ns w).0).1
          (r.counters, r.executed_iterations, r.status)
    pub ended : after ≡ (now_ns (sample arm phase n (now_ns w).0).0).0

  attempt-IsAttempt :
      (config : RunConfig) (n : ℕ) (phase : RunPhase) (arm : Arm) (index : ℕ) (w : World)
      (r : SampleRecord × World)
      → attempt workload config n phase arm index w ≡ ok r
      → IsAttempt config n phase arm index w r.0 r.1
  unfolding attempt
  attempt-IsAttempt config n phase arm index w r h =
      let first = workload.now_ns w in
      let second = workload.sample arm phase n first.0 in
      let third = workload.now_ns second.0 in
      >>=-ok-elim (map_err bad_clock (elapsed first.1 third.1)) _ h λ duration_ns timed h₁.
        >>=-ok-elim (classify_attempt second.1 n duration_ns config.sample_timeout_ns) _ h₁
          λ c classified h₂.
            subst (λ x. IsAttempt config n phase arm index w x.0 x.1) (ok-inj h₂)
              (record {
                indexed = refl;
                in_phase = refl;
                of_arm = refl;
                requested = refl;
                timed =
                    (elapsed-lem first.1 third.1
                      (map_err-ok bad_clock (elapsed first.1 third.1) timed)).1;
                ended = refl;
                classified =
                    classify_attempt-IsClassified second.1 n duration_ns config.sample_timeout_ns c
                      classified;
              })

  -- The records of the warmup, from `index` on: the arms alternate.
  abbrev pub IsWarmup : RunConfig → ℕ → ℕ → ℕ → World → List SampleRecord → World → Type 0
  IsWarmup config n index zero w rs after = (rs ≡ []) × (after ≡ w)
  IsWarmup config n index (suc left) w rs after =
      (r : SampleRecord) × (next : World) × (rest : List SampleRecord) × (rs ≡ r ∷ rest)
      × IsAttempt config n warmup (if index % 2 == 0 then baseline else candidate) index w r next
      × IsWarmup config n (suc index) left next rest after

  pub warm_up-IsWarmup :
      (config : RunConfig) (n index left : ℕ) (w : World) (r : List SampleRecord × World)
      → warm_up workload config n index left w ≡ ok r
      → IsWarmup config n index left w r.0 r.1
  unfolding warm_up
  warm_up-IsWarmup config n index zero w r h =
      (ap (λ x. x.0) (sym (ok-inj h)), ap (λ x. x.1) (sym (ok-inj h)))
  warm_up-IsWarmup config n index (suc left) w r h =
      let arm = if index % 2 == 0 then baseline else candidate in
      >>=-ok-elim (attempt workload config n warmup arm index w) _ h λ a attempted h₁.
        >>=-ok-elim (warm_up workload config n (suc index) left a.1) _ h₁ λ rest warmed h₂.
          subst (λ x. IsWarmup config n index (suc left) w x.0 x.1) (ok-inj h₂)
            (
              a.0,
              a.1,
              rest.0,
              refl,
              attempt-IsAttempt config n warmup arm index w a attempted,
              warm_up-IsWarmup config n (suc index) left a.1 rest warmed,
            )

  module _ (f64 : F64) {Value : Type 0} (codec : Codec f64.F Value) where
    -- The observation of a completed sample, and none of another.
    abbrev pub IsObserved : String → ℕ → Arm → ℕ → SampleStatus → List (RawObservation f64) → Type 0
    IsObserved spec_key index arm duration_ns completed os =
        (o : RawObservation f64) × (os ≡ o ∷ [])
        × IsObservation f64 codec spec_key index (cat (arm_name arm) "-duration") nanoseconds
            (f64.of_u64 duration_ns) o
    IsObserved spec_key index arm duration_ns timed_out os = os ≡ []
    IsObserved spec_key index arm duration_ns (failed diagnostic) os = os ≡ []

    index_u32-ok : (index : ℕ) {i : ℕ} → index_u32 index ≡ ok i → i ≡ index
    index_u32-ok index h = ground arith

    observe-IsObserved :
        (spec_key : String) (index : ℕ) (arm : Arm) (duration_ns : ℕ) (status : SampleStatus)
        (os : List (RawObservation f64))
        → observe workload f64 codec spec_key index arm duration_ns status ≡ ok os
        → IsObserved spec_key index arm duration_ns status os
    unfolding observe
    observe-IsObserved spec_key index arm duration_ns timed_out os h = sym (ok-inj h)
    observe-IsObserved spec_key index arm duration_ns (failed d) os h = sym (ok-inj h)
    observe-IsObserved spec_key index arm duration_ns completed os h =
        let metric = cat (arm_name arm) "-duration" in
        >>=-ok-elim (index_u32 index) _ h λ i fits h₁.
          let made =
            new_observation f64 codec spec_key i metric nanoseconds (f64.of_u64 duration_ns) in
          >>=-ok-elim (map_err bad_observation made) _ h₁ λ o observed h₂.
            let named =
              new_observation-IsObservation f64 codec spec_key i metric nanoseconds
                (f64.of_u64 duration_ns) o (map_err-ok bad_observation made observed) in
            (
              o,
              sym (ok-inj h₂),
              subst
                  (λ x.
                    IsObservation f64 codec spec_key x metric nanoseconds (f64.of_u64 duration_ns)
                      o)
                  (index_u32-ok index fits) named,
            )

    -- The record of a measured phase: one sample for each position of the schedule, and beside the
    -- samples one observation of the duration for each that completed.
    abbrev pub IsMeasured :
        RunConfig
        → String
        → ℕ
        → ℕ
        → List Arm
        → World
        → List SampleRecord
        → List (RawObservation f64)
        → Type 0
    IsMeasured config spec_key n index [] w rs os = (rs ≡ []) × (os ≡ [])
    IsMeasured config spec_key n index (arm ∷ arms) w rs os =
        (r : SampleRecord) × (next : World) × (rest : List SampleRecord) × (observed : List
          (RawObservation f64))
        × (later : List (RawObservation f64)) × (rs ≡ r ∷ rest)
        × (os ≡ observed ++ later)
        × IsAttempt config n measured arm index w r next
        × IsObserved spec_key index arm r.duration_ns r.status observed
        × IsMeasured config spec_key n (suc index) arms next rest later

    pub measure-IsMeasured :
        (config : RunConfig) (spec_key : String) (n index : ℕ) (arms : List Arm) (w : World)
        (r : List SampleRecord × List (RawObservation f64) × World)
        → measure workload f64 codec config spec_key n index arms w ≡ ok r
        → IsMeasured config spec_key n index arms w r.0 r.1
    unfolding measure
    measure-IsMeasured config spec_key n index [] w r h =
        (ap (λ x. x.0) (sym (ok-inj h)), ap (λ x. x.1) (sym (ok-inj h)))
    measure-IsMeasured config spec_key n index (arm ∷ arms) w r h =
        >>=-ok-elim (attempt workload config n measured arm index w) _ h λ a attempted h₁.
          >>=-ok-elim (observe workload f64 codec spec_key index arm a.0.duration_ns a.0.status) _
            h₁
            λ os observed h₂. >>=-ok-elim (index_u32 index) _ h₂ λ _ _ h₃.
              >>=-ok-elim (measure workload f64 codec config spec_key n (suc index) arms a.1) _ h₃
                λ rest later h₄.
                  subst (λ x. IsMeasured config spec_key n index (arm ∷ arms) w x.0 x.1) (ok-inj h₄)
                    (
                      a.0,
                      a.1,
                      rest.0,
                      os,
                      rest.1,
                      refl,
                      refl,
                      attempt-IsAttempt config n measured arm index w a attempted,
                      observe-IsObserved spec_key index arm a.0.duration_ns a.0.status os observed,
                      measure-IsMeasured config spec_key n (suc index) arms a.1 rest later,
                    )
