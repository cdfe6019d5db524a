-- ===== src/Bench/Compare/Pairs/Join.antt =====
-- `aligned_pair_differences` is the join of two sample sets on the sample index.
use sim_tooling.Support.{
  ℕ, ◌≤◌, ◌<◌, ◌≡◌, refl, Option, none, some, List, [], ◌∷◌, All, arith, ◌==◌, if◌then◌else◌,
}
use sim_tooling.Bench.Float.{F64}
use sim_tooling.Bench.Compare.Pairs.{ComparisonSample, aligned_pair_differences}

module _ {F : Type 0} where
  -- What `validate_samples` demands: the indices strictly increase.
  abbrev pub IsIncreasing : List (ComparisonSample F) → Type 0
  IsIncreasing [] = Unit
  IsIncreasing (x ∷ xs) = All (λ y. x.sample_index < y.sample_index) xs × IsIncreasing xs

  -- The value of the sample with a given index.
  pub value_at : List (ComparisonSample F) → ℕ → Option F
  value_at [] i = none
  value_at (x ∷ xs) i = if x.sample_index == i then some x.value else value_at xs i

  abbrev pub indices : List (ComparisonSample F) → List ℕ
  indices [] = []
  indices (x ∷ xs) = x.sample_index ∷ indices xs

  value_at_below :
      (k i : ℕ) (xs : List (ComparisonSample F))
      → All (λ y. k < y.sample_index) xs
      → i ≤ k
      → value_at xs i ≡ none
  unfolding value_at
  value_at_below k i [] h p = refl
  value_at_below k i (x ∷ xs) h p = ground (arith, value_at_below k i xs)

-- The values that a join pairs.
abbrev pub both : {F : Type 0} → (F → F → F) → Option F → Option F → Option F
both f none y = none
both f (some x) none = none
both f (some x) (some y) = some (f x y)

module _ (f64 : F64) where
  open f64 use {F}

  differences-at :
      (bs cs : List (ComparisonSample F)) (i : ℕ)
      → IsIncreasing bs
      → IsIncreasing cs
      → value_at (aligned_pair_differences f64 bs cs).differences i
        ≡ both (λ x y. f64.sub y x) (value_at bs i) (value_at cs i)
  unfolding aligned_pair_differences value_at
  differences-at [] cs i hb hc = refl
  differences-at (b ∷ bs) [] i hb hc = ground arith
  differences-at (b ∷ bs) (c ∷ cs) i hb hc = ground (
    arith,
    differences-at bs (c ∷ cs) i,
    differences-at (b ∷ bs) cs i,
    differences-at bs cs i,
    value_at_below b.sample_index i bs hb.0,
    value_at_below c.sample_index i cs hc.0,
    value_at_below b.sample_index i cs,
  )

  differences-above :
      (k : ℕ) (bs cs : List (ComparisonSample F))
      → All (λ y. k < y.sample_index) bs
      → All (λ y. k < y.sample_index) (aligned_pair_differences f64 bs cs).differences
  unfolding aligned_pair_differences
  differences-above k [] cs h = tt
  differences-above k (b ∷ bs) [] h = tt
  differences-above k (b ∷ bs) (c ∷ cs) h = ground (
    arith,
    differences-above k bs (c ∷ cs),
    differences-above k (b ∷ bs) cs,
    differences-above k bs cs,
  )

  differences-IsIncreasing :
      (bs cs : List (ComparisonSample F))
      → IsIncreasing bs
      → IsIncreasing (aligned_pair_differences f64 bs cs).differences
  unfolding aligned_pair_differences
  differences-IsIncreasing [] cs h = tt
  differences-IsIncreasing (b ∷ bs) [] h = tt
  differences-IsIncreasing (b ∷ bs) (c ∷ cs) h = ground (
    arith,
    differences-IsIncreasing bs (c ∷ cs),
    differences-IsIncreasing (b ∷ bs) cs,
    differences-IsIncreasing bs cs,
    differences-above b.sample_index bs cs,
  )

  zero-indices :
      (bs cs : List (ComparisonSample F))
      → indices (aligned_pair_differences f64 bs cs).zero
        ≡ indices (aligned_pair_differences f64 bs cs).differences
  unfolding aligned_pair_differences
  zero-indices [] cs = refl
  zero-indices (b ∷ bs) [] = refl
  zero-indices (b ∷ bs) (c ∷ cs) =
      ground (arith, zero-indices bs (c ∷ cs), zero-indices (b ∷ bs) cs, zero-indices bs cs)

  zero-values :
      (bs cs : List (ComparisonSample F))
      → All (λ s. s.value ≡ f64.zero) (aligned_pair_differences f64 bs cs).zero
  unfolding aligned_pair_differences
  zero-values [] cs = tt
  zero-values (b ∷ bs) [] = tt
  zero-values (b ∷ bs) (c ∷ cs) =
      ground (arith, zero-values bs (c ∷ cs), zero-values (b ∷ bs) cs, zero-values bs cs)

  -- On sample sets with strictly increasing indices `aligned_pair_differences` returns, in
  -- increasing order, exactly the indices of both sets, each once, with the candidate's value less
  -- the baseline's, and beside it a zero at the same index.
  pub aligned_pair_differences-join :
      (bs cs : List (ComparisonSample F))
      → IsIncreasing bs
      → IsIncreasing cs
      → IsIncreasing (aligned_pair_differences f64 bs cs).differences
        × ((i : ℕ)
            → value_at (aligned_pair_differences f64 bs cs).differences i
              ≡ both (λ x y. f64.sub y x) (value_at bs i) (value_at cs i))
        × (indices (aligned_pair_differences f64 bs cs).zero
            ≡ indices (aligned_pair_differences f64 bs cs).differences)
        × All (λ s. s.value ≡ f64.zero) (aligned_pair_differences f64 bs cs).zero
  aligned_pair_differences-join bs cs hb hc = (
    differences-IsIncreasing bs cs hb,
    λ i. differences-at bs cs i hb hc,
    zero-indices bs cs,
    zero-values bs cs,
  )
