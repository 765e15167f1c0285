-- ===== src/Base/Words.antt =====
-- `usize` is 64 bits wide and its arithmetic wraps: the build turns overflow checks off
-- (Cargo.toml, profile.dev) and the release profile has none.
use Prim.Native.Nat.{ℕ, zero, suc, ◌+◌, ◌-◌, ◌*◌, ◌/◌, ◌%◌, ◌^◌, ◌≤◌, ◌<◌}
use mathlib.Core.Path.{ap}
use mathlib.Core.Logic.{inl, inr}
use mathlib.Core.Bool.{Bool, not, ◌&&◌}
use native.Mathlib.Omega.{arith}
use native.Mathlib.Nat.{pow-suc}
use uni_alloc.Base.Tests.{◌==◌, leb, if◌then◌else◌, Bool-cases}

abbrev pub usize_mod : ℕ
usize_mod = 2 ^ 64

abbrev pub usize_max : ℕ
usize_max = 2 ^ 64 - 1

abbrev pub add64 : ℕ → ℕ → ℕ
add64 a b = (a + b) % 2 ^ 64

abbrev pub sub64 : ℕ → ℕ → ℕ
sub64 a b = (a + 2 ^ 64 - b) % 2 ^ 64

abbrev pub mul64 : ℕ → ℕ → ℕ
mul64 a b = (a * b) % 2 ^ 64

-- The digits of a 64-bit word from the low end that are 0; 64 for the word 0.
low_zeros : ℕ → ℕ → ℕ
low_zeros zero x = 0
low_zeros (suc bits) x = let rest = low_zeros bits (x / 2) in if x % 2 == 0 then suc rest else 0

unfoldable pub trailing_zeros : ℕ → ℕ
unfolding low_zeros
trailing_zeros x = low_zeros 64 x

-- `n.next_power_of_two()`: the first of p, 2 p, 4 p, ... that is not below n, in at most 64 rounds.
doubling : ℕ → ℕ → ℕ → ℕ
doubling zero p n = p
doubling (suc rounds) p n = let rest = doubling rounds (2 * p) n in if leb n p then p else rest

unfoldable pub next_power_of_two : ℕ → ℕ
unfolding doubling
next_power_of_two n = doubling 64 1 n

-- `n.is_power_of_two()`
unfoldable pub is_power_of_two : ℕ → Bool
is_power_of_two n = not (n == 0) && (n == 2 ^ trailing_zeros n)

-- Below 2^64 the next power of two is less than twice the number.
doubling_bounds :
    (rounds p n : ℕ)
    → n ≤ p * 2 ^ rounds
    → 0 < p
    → p < 2 * n
    → (n ≤ doubling rounds p n) × (doubling rounds p n < 2 * n)
unfolding doubling
doubling_bounds zero p n h pos lt = (omega arith, lt)
doubling_bounds (suc rounds) p n h pos lt = elim (Bool-cases (leb n p)) [
  | inl stop ↦ rw stop (ground arith, lt)
  | inr more ↦ rw more (
      doubling_bounds rounds (2 * p) n (omega (arith, ap (λ (t : ℕ). p * t) (pow-suc 2 rounds)))
        (omega arith) (ground arith))
]

pub next_power_of_two_bounds :
    (n : ℕ) → 0 < n → n ≤ 2 ^ 64 → (n ≤ next_power_of_two n) × (next_power_of_two n < 2 * n)
unfolding next_power_of_two
next_power_of_two_bounds n pos h = doubling_bounds 64 1 n (omega arith) (omega arith) (omega arith)
