-- ===== src/Bench/Compare/Exclusion/Partition.antt =====
-- What `validate_samples` accepts, and that `exclude_outliers` splits the samples in two.
use sim_tooling.Support.{
  ℕ, suc, String, subst, >>=-eq-ok, ◌<◌, ◌≡◌, ◌↔◌, refl, ap, true, false, Option, none, some, List,
  [], ◌∷◌, All, All-imp, length, arith, Result, ok, err, ◌>>=◌, Bool-cases, inl, inr,
}
use sim_tooling.Bench.Float.{F64, Stats}
use sim_tooling.Bench.Compare.Pairs.{ComparisonSample}
use sim_tooling.Bench.Compare.Pairs.Join.{IsIncreasing}
use sim_tooling.Bench.Compare.Exclusion.{
  SampleSide, stats, validate_from, validate_samples, ExcludedSample, values, Split, deviation,
  split_samples, exclude_outliers,
}

module _ (f64 : F64) where
  open f64 use {F}

  abbrev pub Finite : List (ComparisonSample F) → Type 0
  Finite = All (λ s. f64.is_finite s.value ≡ true)

  pub length-values : (xs : List (ComparisonSample F)) → length (values f64 xs) ≡ length xs
  unfolding values
  length-values [] = refl
  length-values (x ∷ xs) = ap suc (length-values xs)

  above-All :
      (k j : ℕ) (xs : List (ComparisonSample F))
      → k < j
      → All (λ y. j < y.sample_index) xs
      → All (λ y. k < y.sample_index) xs
  above-All k j xs h = All-imp (λ y p. omega arith) xs

  validate_from-ok :
      (side : SampleSide) (n k : ℕ) (xs : List (ComparisonSample F))
      → (validate_from f64 side n (some k) xs ≡ ok tt)
        ↔ (Finite xs × All (λ y. k < y.sample_index) xs × IsIncreasing xs)
  unfolding validate_from
  validate_from-ok side n k [] = (λ h. (tt, tt, tt), λ h. refl)
  validate_from-ok side n k (x ∷ xs) = (
    λ h.
        let later = (validate_from-ok side (suc n) x.sample_index xs).0 (ground arith) in
        (
          (ground arith, later.0),
          (ground arith, above-All k x.sample_index xs (ground arith) later.1),
          (later.1, later.2),
        ),
    λ (f, a, i).
        ground (arith, (validate_from-ok side (suc n) x.sample_index xs).1 (f.1, i.0, i.1)),
  )

  -- `validate_samples` accepts exactly the sample sets whose values are finite and whose indices
  -- strictly increase.
  pub validate_samples_iff :
      (side : SampleSide) (xs : List (ComparisonSample F))
      → (validate_samples f64 side xs ≡ ok tt) ↔ (Finite xs × IsIncreasing xs)
  unfolding validate_samples validate_from
  validate_samples_iff side [] = (λ h. (tt, tt), λ h. refl)
  validate_samples_iff side (x ∷ xs) = (
    λ h.
        let later = (validate_from-ok side 1 x.sample_index xs).0 (ground arith) in
        ((ground arith, later.0), (later.1, later.2)),
    λ (f, i). ground (arith, (validate_from-ok side 1 x.sample_index xs).1 (f.1, i.0, i.1)),
  )

  -- The sample that an exclusion record is about.
  abbrev pub original : ExcludedSample f64 → ComparisonSample F
  original e = record { sample_index = e.sample_index; value = e.value }

  abbrev pub originals : List (ExcludedSample f64) → List (ComparisonSample F)
  originals [] = []
  originals (e ∷ es) = original e ∷ originals es

  -- `xs` is the two lists laid into each other, each in its order.
  pub data Interleaves
      : List (ComparisonSample F)
        → List (ComparisonSample F)
        → List (ComparisonSample F)
        → Type 0 where
    done : Interleaves [] [] []
    left :
        {x : ComparisonSample F} {as' bs xs : List (ComparisonSample F)}
        → Interleaves as' bs xs
        → Interleaves (x ∷ as') bs (x ∷ xs)
    right :
        {x : ComparisonSample F} {as' bs xs : List (ComparisonSample F)}
        → Interleaves as' bs xs
        → Interleaves as' (x ∷ bs) (x ∷ xs)

  -- The split keeps every sample on exactly one side, each side in the order of the samples, and
  -- sorts them by the declared rule.
  pub record IsSplit (side : SampleSide) (multiplier median mad : F)
      (samples : List (ComparisonSample F)) (split : Split f64) : Type 0 where
    pub complete : Interleaves split.retained (originals split.excluded) samples
    pub kept :
        All (λ s. f64.lt (f64.mul multiplier mad) (deviation f64 median s) ≡ false) split.retained
    pub dropped :
        All
          (λ e.
            (e.side ≡ side)
            × (e.deviation ≡ deviation f64 median (original e))
            × (e.limit ≡ f64.mul multiplier mad)
            × (f64.lt e.limit e.deviation ≡ true))
          split.excluded

  module _ (side : SampleSide) (multiplier median mad : F) where
    split_samples-IsSplit :
        (xs : List (ComparisonSample F))
        → IsSplit side multiplier median mad xs (split_samples f64 side multiplier median mad xs)
    unfolding split_samples
    split_samples-IsSplit [] = record { complete = done; kept = tt; dropped = tt }
    split_samples-IsSplit (x ∷ xs) =
        let later = split_samples-IsSplit xs in
        elim (Bool-cases (f64.lt (f64.mul multiplier mad) (deviation f64 median x))) [
          | inl e ↦ rw e (record {
            complete = right later.complete;
            kept = later.kept;
            dropped = ((refl, refl, refl, e), later.dropped);
          })
          | inr e ↦ rw e (record {
            complete = left later.complete;
            kept = (e, later.kept);
            dropped = later.dropped;
          })
        ]

  module _ (external : Stats f64) (side : SampleSide) where
    -- How the result of `exclude_outliers` comes about.
    abbrev pub Explains : List (ComparisonSample F) → Option F → Split f64 → Type 0
    Explains samples none split = (split.retained ≡ samples) × (split.excluded ≡ [])
    Explains [] (some multiplier) split = (split.retained ≡ []) × (split.excluded ≡ [])
    Explains (s ∷ ss) (some multiplier) split =
        (median : F) × (mad : F) × (external.exact_quantile (values f64 (s ∷ ss)) f64.half
          ≡ ok median)
        × (external.median_absolute_deviation (values f64 (s ∷ ss)) ≡ ok mad)
        × IsSplit side multiplier median mad (s ∷ ss) split

    stats-eq-ok : {A : Type 0} (r : Result String A) {a : A} → stats r ≡ ok a → r ≡ ok a
    stats-eq-ok (ok x) h = cc
    stats-eq-ok (err e) h = cc

    -- When `exclude_outliers` returns: with no multiplier every sample is retained; with one, the
    -- samples are split by their absolute deviation from the median against the multiplied MAD, no
    -- sample is lost or doubled, and both sides keep the order of the samples.
    pub exclude_outliers_lem :
        (samples : List (ComparisonSample F)) (multiplier : Option F) (split : Split f64)
        → exclude_outliers f64 external side samples multiplier ≡ ok split
        → Explains samples multiplier split
    unfolding exclude_outliers
    exclude_outliers_lem [] none split h = ground arith
    exclude_outliers_lem (s ∷ ss) none split h = ground arith
    exclude_outliers_lem [] (some m) split h = ground arith
    exclude_outliers_lem (s ∷ ss) (some m) split h =
        let (median, em, h') =
          >>=-eq-ok (stats (external.exact_quantile (values f64 (s ∷ ss)) f64.half))
            (λ median. stats (external.median_absolute_deviation (values f64 (s ∷ ss))) >>= λ mad.
              ok (split_samples f64 side m median mad (s ∷ ss)))
            h in
        let (mad, ea, h'') =
          >>=-eq-ok (stats (external.median_absolute_deviation (values f64 (s ∷ ss))))
            (λ mad. ok (split_samples f64 side m median mad (s ∷ ss))) h' in
        let e : split_samples f64 side m median mad (s ∷ ss) ≡ split = cc in
        (
          median,
          mad,
          stats-eq-ok _ em,
          stats-eq-ok _ ea,
          subst (IsSplit side m median mad (s ∷ ss)) e
              (split_samples-IsSplit side m median mad (s ∷ ss)),
        )
