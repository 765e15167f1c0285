-- ===== src/Memory.antt =====
-- Memory as the allocator's lists use it: a pointer-sized word at each address of a free chunk.
-- A chunk is at least eight bytes and chunks do not overlap, so a write at one address changes no
-- word at another. Addresses are numbers, and 0 is null.
pub mod Chain
use uni_alloc.Base.{
  ℕ, zero, suc, ◌+◌, ◌*◌, ◌/◌, ◌-◌, ◌≡◌, refl, true, arith, Bool, ◌==◌, if◌then◌else◌,
}
use uni_alloc.Base.Words.{sub64}
use Prim.Native.Nat.{bit_and, bit_and-bitwise, digits, min}

abbrev pub Memory : Type 0
Memory = ℕ → ℕ

unfoldable pub write : Memory → ℕ → ℕ → Memory
write m a v b = if a == b then v else m b

-- `addr & (align - 1) == 0`
unfoldable pub is_aligned : ℕ → ℕ → Bool
is_aligned align addr = bit_and addr (sub64 align 1) == 0

digits-zero : (n a : ℕ) → digits (λ b. 0) min n a 0 ≡ 0
digits-zero zero a = refl
digits-zero (suc n) zero = refl
digits-zero (suc n) (suc a) = omega (arith, digits-zero n (suc a / 2))

pub is_aligned-one : (a : ℕ) → is_aligned 1 a ≡ true
unfolding is_aligned
is_aligned-one a = ground (arith, bit_and-bitwise a 0, digits-zero a a)
