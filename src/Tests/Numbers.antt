-- ===== src/Tests/Numbers.antt =====
-- A number type and statistics that stand in for `f64` and `sim-lib-numbers-stats` in the runs.
use Prim.Native.Nat.{◌+◌}
use sim_tooling.Support.{
  ℕ, ◌-◌, ◌*◌, ◌/◌, true, List, [], ◌∷◌, ltb, leb, ◌==◌, length, get_elem?, ok, ok_or,
}
use sim_tooling.Bench.Float.{F64, Stats}

abbrev total : List ℕ → ℕ
total [] = 0
total (x ∷ xs) = x + total xs

-- Numbers in which `unit` stands for one.
abbrev pub numbers : ℕ → F64
numbers unit = record {
  F = ℕ;
  zero = 0;
  half = 0;
  one = unit;
  infinity = 1000000;
  sub = ◌-◌;
  mul = ◌*◌;
  div = ◌/◌;
  abs = λ n. n;
  lt = ltb;
  le = leb;
  eq = ◌==◌;
  is_finite = λ n. true;
  of_u64 = λ n. n;
}

abbrev pub counting : F64
counting = numbers 1

abbrev pub percents : F64
percents = numbers 100

abbrev pub middling : Stats counting
middling = record {
  Control = Unit {0};
  mean = λ xs. ok (total xs / length xs);
  exact_quantile = λ xs q. ok_or (get_elem? xs (length xs / 2)) "no sample";
  median_absolute_deviation = λ xs. ok 1;
  sample_variance = λ xs. ok 1;
  control = λ seed resamples level work. ok tt;
  bootstrap = λ xs ys control.
      ok
        (record { point_effect = total ys - total xs; lower = 0; upper = 1; confidence_level = 1 });
}
