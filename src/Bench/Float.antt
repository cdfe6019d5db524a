-- ===== src/Bench/Float.antt =====
-- `f64` and `sim-lib-numbers-stats`, which the benchmark code calls and does not define: parameters.
use sim_tooling.Support.{ℕ, String, Bool, List, Result}

-- `f64` with the constants, operations and comparisons that the code uses.
pub record F64 : Type 1 where
  pub F : Type 0
  pub zero : F
  pub half : F
  pub one : F
  pub infinity : F
  pub sub : F → F → F
  pub mul : F → F → F
  pub div : F → F → F
  pub abs : F → F
  -- `a < b`, false on NaN
  pub lt : F → F → Bool
  -- `a == b`
  pub eq : F → F → Bool
  -- `a <= b`, false on NaN
  pub le : F → F → Bool
  pub is_finite : F → Bool
  -- `n as f64`
  pub of_u64 : ℕ → F

-- What `bootstrap_mean_difference_interval` returns.
pub record Interval (F : Type 0) : Type 0 where
  pub point_effect : F
  pub lower : F
  pub upper : F
  pub confidence_level : F

pub record Stats (f64 : F64) : Type 1 where
  pub Control : Type 0
  pub mean : List f64.F → Result String f64.F
  pub exact_quantile : List f64.F → f64.F → Result String f64.F
  pub median_absolute_deviation : List f64.F → Result String f64.F
  pub sample_variance : List f64.F → Result String f64.F
  -- `BootstrapControl::new(seed, resamples, level, max_work)`
  pub control : ℕ → ℕ → f64.F → ℕ → Result String Control
  pub bootstrap : List f64.F → List f64.F → Control → Result String (Interval f64.F)
