-- ===== src/Bench/Run/Calibration/Bounds.antt =====
-- What a calibration that succeeds has chosen, and when it fails.
use sim_tooling.Support.{
  ℕ, if◌then◌else◌, zero, suc, ltb→lt, false, Bool-cases, ◌+◌, ◌-◌, ◌*◌, ◌/◌, ◌≤◌, ◌<◌, ◌≡◌, refl,
  ◌↔◌, ◌⊎◌, inl, inr, arith, ok, err, ltb,
}
use sim_tooling.Bench.Run.Shuffle.{u64_mod}
use sim_tooling.Bench.Run.Calibration.{
  RunConfig, validate, calibrated_iterations, zero_probe_duration, arithmetic_overflowed,
}

pub record IsValid (c : RunConfig) : Type 0 where
  pub target : 0 < c.calibration_target_ns
  pub probe : 0 < c.calibration_probe_iterations
  pub limit : 0 < c.max_iterations
  pub timeout : 0 < c.sample_timeout_ns

-- `validate` accepts a configuration exactly when none of its limits is zero.
pub validate_iff : (c : RunConfig) → (validate c ≡ ok tt) ↔ IsValid c
unfolding validate
validate_iff c = (λ h. ground arith, λ h. ground arith)

abbrev pub wanted : RunConfig → ℕ
wanted c = c.calibration_target_ns * c.calibration_probe_iterations

-- The ceiling of a quotient.
ceil_div : (a d : ℕ) → 0 < d → (a ≤ ((a + (d - 1)) / d) * d) × (((a + (d - 1)) / d) * d < a + d)
ceil_div a d h = grind arith

-- The chosen count lies in the configured range; it is the least count that fills the target
-- duration at the probed speed, unless the range cuts it off.
pub record IsChosen (probe_ns : ℕ) (c : RunConfig) (n : ℕ) : Type 0 where
  pub at_least_one : 1 ≤ n
  pub within : n ≤ c.max_iterations
  pub enough : (wanted c ≤ n * probe_ns) ⊎ (n ≡ c.max_iterations)
  pub least : ((n - 1) * probe_ns < wanted c) ⊎ (n ≡ 1)

abbrev quotient : ℕ → RunConfig → ℕ
quotient probe_ns c = (wanted c + (probe_ns - 1)) / probe_ns

abbrev clamped : ℕ → ℕ → ℕ
clamped q m = if ltb q 1 then 1 else if ltb m q then m else q

pred_times : (a b d : ℕ) → 0 < a → a ≤ b → (a - 1) * d + d ≤ b * d
pred_times zero b d h p = absurd (omega arith)
pred_times (suc a) b d h p = grind arith

below_self : (d q w : ℕ) → suc q * d < w + d → (suc q - 1) * d < w
below_self d q w h = omega (arith, pred_times (suc q) (suc q) d (omega arith) (omega arith))

suc_not_below : (q : ℕ) → ltb (suc q) 1 ≡ false
suc_not_below q = ground arith

ltb→le : (a b : ℕ) → ltb a b ≡ false → b ≤ a
ltb→le a b h = ground arith

clamped-IsChosen :
    (probe_ns q : ℕ) (c : RunConfig)
    → 0 < probe_ns
    → 0 < c.max_iterations
    → wanted c ≤ q * probe_ns
    → q * probe_ns < wanted c + probe_ns
    → IsChosen probe_ns c (clamped q c.max_iterations)
clamped-IsChosen probe_ns zero c h m lower upper = record {
  at_least_one = omega arith;
  within = m;
  enough = inl (omega arith);
  least = inr refl;
}
clamped-IsChosen probe_ns (suc q) c h m lower upper =
    elim (Bool-cases (ltb c.max_iterations (suc q))) [
      | inl over ↦
          rw (suc_not_below q, over)
            (record {
              at_least_one = m;
              within = omega arith;
              enough = inr refl;
              least = inl (
                  omega (
                    arith,
                    pred_times c.max_iterations (suc q) probe_ns m (omega (arith, ltb→lt _ _ over)),
                  ));
            })
      | inr fits ↦
          rw (suc_not_below q, fits)
            (record {
              at_least_one = omega arith;
              within = ltb→le _ _ fits;
              enough = inl lower;
              least = inl (below_self probe_ns q (wanted c) upper);
            })
    ]

-- Under a valid configuration `calibrated_iterations` refuses a probe that took no time, it refuses
-- a numerator that does not fit in a `u64`, and in every other case it returns the chosen count.
pub calibrated_iterations_lem :
    (probe_ns : ℕ) (c : RunConfig)
    → IsValid c
    → ((probe_ns ≡ 0) × (calibrated_iterations probe_ns c ≡ err zero_probe_duration))
      ⊎ (((0 < probe_ns)
            × (u64_mod ≤ wanted c + (probe_ns - 1))
            × (calibrated_iterations probe_ns c ≡ err arithmetic_overflowed))
          ⊎ ((0 < probe_ns)
              × (wanted c + (probe_ns - 1) < u64_mod)
              × ((n : ℕ) × (calibrated_iterations probe_ns c ≡ ok n) × IsChosen probe_ns c n)))
unfolding calibrated_iterations
calibrated_iterations_lem zero c v = inl (refl, ground arith)
calibrated_iterations_lem (suc p) c v = elim (Bool-cases (ltb (wanted c + (suc p - 1)) u64_mod)) [
  | inl fits ↦
      let (lower, upper) = ceil_div (wanted c) (suc p) (omega arith) in
      inr (
        inr (
          omega arith,
          ltb→lt _ _ fits,
          (
            clamped (quotient (suc p) c) c.max_iterations,
            ground (arith, v.limit),
            clamped-IsChosen (suc p) (quotient (suc p) c) c (omega arith) v.limit lower upper,
          ),
        ))
  | inr over ↦ inr (inl (omega arith, ltb→le _ _ over, ground arith))
]
