-- ===== src/Bench/Run/Shuffle.antt =====
-- bench/run.rs: `schedule` and `splitmix64`, the seeded interleaving of the two arms.
pub mod Balance
use Prim.Native.Nat.{bit_xor}
use sim_tooling.Support.{
  ℕ, zero, suc, ◌+◌, ◌-◌, ◌*◌, ◌/◌, ◌%◌, ◌^◌, Option, none, some, List, [], ◌∷◌, ltb, length,
  get_elem?, set, Result, ok, ◌>>=◌, ok_or, if◌then◌else◌,
}

pub data Arm : Type 0 where
  baseline candidate : Arm

-- `index_out_of_bounds` is the panic of `Vec::swap`.
pub data ScheduleError : Type 0 where
  size_overflowed index_out_of_bounds : ScheduleError

-- The number of values of a `u64`, and of a `usize` on a 64-bit host.
abbrev pub u64_mod : ℕ
u64_mod = 2 ^ 64

abbrev pub checked_mul : ℕ → ℕ → Option ℕ
checked_mul a b = if ltb (a * b) u64_mod then some (a * b) else none

abbrev pub checked_add : ℕ → ℕ → Option ℕ
checked_add a b = if ltb (a + b) u64_mod then some (a + b) else none

-- The new state and the value drawn from it.
unfoldable pub splitmix64 : ℕ → ℕ × ℕ
splitmix64 state =
    let next = (state + 0x9e3779b97f4a7c15) % u64_mod in
    let first = (bit_xor next (next / 2 ^ 30) * 0xbf58476d1ce4e5b9) % u64_mod in
    let second = (bit_xor first (first / 2 ^ 27) * 0x94d049bb133111eb) % u64_mod in
    (next, bit_xor second (second / 2 ^ 31))

-- `Vec::swap`
unfoldable pub swap {ℓ} : {A : Type ℓ} → List A → ℕ → ℕ → Result ScheduleError (List A)
swap xs i j = do
  x ← ok_or (get_elem? xs i) index_out_of_bounds
  y ← ok_or (get_elem? xs j) index_out_of_bounds
  ok (set (set xs i y) j x)

-- `for _ in 0..samples_per_arm { arms.extend([Baseline, Candidate]) }`
unfoldable pub pairs : ℕ → List Arm
pairs zero = []
pairs (suc n) = baseline ∷ candidate ∷ pairs n

-- `for upper in (1..arms.len()).rev()`: `upper` counts down to 1.
unfoldable pub shuffle : ℕ → ℕ → List Arm → Result ScheduleError (List Arm)
shuffle zero state arms = ok arms
shuffle (suc upper) state arms = do
  let (state', random) = splitmix64 state
  arms' ← swap arms (suc upper) (random % (suc upper + 1))
  shuffle upper state' arms'

unfoldable pub schedule : ℕ → ℕ → Result ScheduleError (List Arm)
unfolding shuffle swap splitmix64 pairs
schedule samples_per_arm seed = do
  capacity ← ok_or (checked_mul samples_per_arm 2) size_overflowed
  let arms = pairs samples_per_arm
  shuffle (length arms - 1) seed arms
