-- ===== src/Bench/Compare/Pairs.antt =====
-- bench/compare.rs: `aligned_pair_differences`.
pub mod Join
use Prim.Native.Nat.{compare, Ordering}
use sim_tooling.Support.{ℕ, List, [], ◌∷◌}
use sim_tooling.Bench.Float.{F64}

pub record ComparisonSample (F : Type 0) : Type 0 where
  pub sample_index : ℕ
  pub value : F

-- The two vectors that `aligned_pair_differences` returns.
pub record AlignedPairs (F : Type 0) : Type 0 where
  pub zero : List (ComparisonSample F)
  pub differences : List (ComparisonSample F)

module _ (f64 : F64) where
  open f64 use {F}

  pub push_pair : ComparisonSample F → ComparisonSample F → AlignedPairs F → AlignedPairs F
  push_pair a b rest = record {
    zero = record { sample_index = a.sample_index; value = f64.zero } ∷ rest.zero;
    differences =
        record { sample_index = a.sample_index; value = f64.sub b.value a.value }
        ∷ rest.differences;
  }

  -- Both iterators advance on equal indices, else the one that lags.
  unfoldable pub aligned_pair_differences :
      List (ComparisonSample F) → List (ComparisonSample F) → AlignedPairs F
  unfolding push_pair
  aligned_pair_differences [] bs = record { zero = []; differences = [] }
  aligned_pair_differences (a ∷ as') [] = record { zero = []; differences = [] }
  aligned_pair_differences (a ∷ as') (b ∷ bs) = elim (compare a.sample_index b.sample_index) [
    | Ordering.lt ↦ aligned_pair_differences as' (b ∷ bs)
    | Ordering.gt ↦ aligned_pair_differences (a ∷ as') bs
    | Ordering.eq ↦ push_pair a b (aligned_pair_differences as' bs)
  ]
