-- ===== src/Bench/Run/Shuffle/Balance.antt =====
-- The measured schedule is a rearrangement of the interleaved arms, so both arms are measured
-- equally often whatever the seed.
use sim_tooling.Support.{
  ℕ, zero, suc, ◌+◌, ◌-◌, ◌*◌, ◌%◌, ◌^◌, ◌≤◌, ◌<◌, ◌≡◌, refl, ◌∙◌, Bool, some, true, false, List,
  [], ◌∷◌, arith, length, get_elem?, set, length-set, get_elem?_total, one_if, count, count-set, ok,
  lt→ltb,
}
use sim_tooling.Bench.Run.Shuffle.{
  Arm, baseline, candidate, u64_mod, splitmix64, swap, pairs, shuffle, schedule,
}

-- `ys` holds the elements of `xs`, each as often.
pub record SameArms (xs ys : List Arm) : Type 0 where
  pub size : length ys ≡ length xs
  pub same : (p : Arm → Bool) → count p ys ≡ count p xs

SameArms-refl : (xs : List Arm) → SameArms xs xs
SameArms-refl xs = record { size = refl; same = λ p. refl }

SameArms-trans : {xs ys zs : List Arm} → SameArms xs ys → SameArms ys zs → SameArms xs zs
SameArms-trans f g = record { size = g.size ∙ f.size; same = λ p. g.same p ∙ f.same p }

-- Once the slot `i` holds the element of slot `j`, slot `j` holds that element still.
get_elem?-set_copy :
    (xs : List Arm) (i j : ℕ) (y : Arm)
    → get_elem? xs j ≡ some y
    → get_elem? (set xs i y) j ≡ some y
get_elem?-set_copy [] i j y h = h
get_elem?-set_copy (x ∷ xs) zero zero y h = refl
get_elem?-set_copy (x ∷ xs) zero (suc j) y h = h
get_elem?-set_copy (x ∷ xs) (suc i) zero y h = h
get_elem?-set_copy (x ∷ xs) (suc i) (suc j) y h = get_elem?-set_copy xs i j y h

module _ (xs : List Arm) (i j : ℕ) (x y : Arm) where
  exchange-SameArms :
      get_elem? xs i ≡ some x → get_elem? xs j ≡ some y → SameArms xs (set (set xs i y) j x)
  exchange-SameArms ex ey = record {
    size = length-set (set xs i y) j x ∙ length-set xs i y;
    same = λ p. omega (
      arith,
      count-set p xs i x y ex,
      count-set p (set xs i y) j y x (get_elem?-set_copy xs i j y ey),
    );
  }

  swap_reads :
      get_elem? xs i ≡ some x → get_elem? xs j ≡ some y → swap xs i j ≡ ok (set (set xs i y) j x)
  unfolding swap
  swap_reads ex ey = rw (ex, ey)

swap-SameArms :
    (xs : List Arm) (i j : ℕ)
    → i < length xs
    → j < length xs
    → (ys : List Arm) × (swap xs i j ≡ ok ys) × SameArms xs ys
swap-SameArms xs i j hi hj =
    let (x, ex) = get_elem?_total xs i hi in
    let (y, ey) = get_elem?_total xs j hj in
    (set (set xs i y) j x, swap_reads xs i j x y ex ey, exchange-SameArms xs i j x y ex ey)

-- No draw leaves the vector, so the loop ends with a rearrangement.
shuffle-SameArms :
    (upper state : ℕ) (xs : List Arm)
    → upper ≤ length xs - 1
    → (ys : List Arm) × (shuffle upper state xs ≡ ok ys) × SameArms xs ys
unfolding shuffle
shuffle-SameArms zero state xs h = (xs, refl, SameArms-refl xs)
shuffle-SameArms (suc upper) state xs h =
    let drawn = (splitmix64 state).1 % (suc upper + 1) in
    let (ys, swapped, same) = swap-SameArms xs (suc upper) drawn (omega arith) (omega arith) in
    let (zs, ends, same') =
      shuffle-SameArms upper (splitmix64 state).0 ys (omega (arith, same.size)) in
    (zs, rw swapped ends, SameArms-trans same same')

abbrev pub is_baseline : Arm → Bool
is_baseline baseline = true
is_baseline candidate = false

abbrev pub is_candidate : Arm → Bool
is_candidate baseline = false
is_candidate candidate = true

length-pairs : (n : ℕ) → length (pairs n) ≡ n * 2
unfolding pairs
length-pairs zero = refl
length-pairs (suc n) = omega (arith, length-pairs n)

count-pairs :
    (p : Arm → Bool) (n : ℕ)
    → count p (pairs n) ≡ n * one_if (p baseline) + n * one_if (p candidate)
unfolding pairs
count-pairs p zero = omega arith
count-pairs p (suc n) = omega (arith, count-pairs p n)

-- For every `u32` sample count and every seed `schedule` returns a rearrangement of the arms
-- interleaved `samples_per_arm` times: no index of a swap leaves the vector and no size overflows.
pub schedule-SameArms :
    (samples_per_arm seed : ℕ)
    → samples_per_arm < 2 ^ 32
    → (arms : List Arm) × (schedule samples_per_arm seed ≡ ok arms)
      × SameArms (pairs samples_per_arm) arms
unfolding schedule
schedule-SameArms n seed h =
    let (arms, ends, same) = shuffle-SameArms (length (pairs n) - 1) seed (pairs n) (omega arith) in
    (arms, rw (lt→ltb (n * 2) u64_mod (omega arith)) ends, same)

-- For every `u32` sample count and every seed `schedule` returns, and the schedule has
-- `samples_per_arm` positions for the baseline, as many for the candidate, and no other.
pub schedule_balanced :
    (samples_per_arm seed : ℕ)
    → samples_per_arm < 2 ^ 32
    → (arms : List Arm) × (schedule samples_per_arm seed ≡ ok arms)
      × (count is_baseline arms ≡ samples_per_arm)
      × (count is_candidate arms ≡ samples_per_arm)
      × (length arms ≡ samples_per_arm * 2)
schedule_balanced n seed h =
    let (arms, ends, same) = schedule-SameArms n seed h in
    (
      arms,
      ends,
      omega (arith, same.same is_baseline, count-pairs is_baseline n),
      omega (arith, same.same is_candidate, count-pairs is_candidate n),
      omega (arith, same.size, length-pairs n),
    )
