-- ===== src/Slab/Examples.antt =====
-- The theorems on slab allocators at concrete classes.
use uni_alloc.Base.{◌*◌, ◌≡◌, refl, arith}
use uni_alloc.Base.Run.{Returns, returns}
use uni_alloc.Base.Words.{trailing_zeros, next_power_of_two, is_power_of_two}
use uni_alloc.Slab.Defs.{new, align_for, min_align_for, rem_for}
use uni_alloc.Slab.Geometry.{IsTiling, new-IsTiling}

-- 352-byte chunks in two pages: 23 of them, 352 bytes apart.
geometry_352 : Returns (λ s. (s.pg_count ≡ 23) × (s.pg_align ≡ 352)) (new 4096 352 2)
unfolding new align_for min_align_for rem_for trailing_zeros next_power_of_two is_power_of_two
geometry_352 = returns (refl, refl)

new-IsTiling_example :
    Returns (λ s. IsTiling (4096 * 2) 352 s × (s.pg_num ≡ 2) × (s.empty_count ≡ 0)) (new 4096 352 2)
new-IsTiling_example = new-IsTiling 4096 352 2 (omega arith) (omega arith) (omega arith)
