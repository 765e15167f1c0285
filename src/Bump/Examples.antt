-- ===== src/Bump/Examples.antt =====
-- The bump allocators over an operating system that maps ever higher addresses.
use uni_alloc.Base.{ℕ, ◌+◌, ◌*◌, ◌/◌, refl, ◌<◌, ◌^◌, arith, ltb, if◌then◌else◌}
use uni_alloc.Base.Words.{usize_max}
use uni_alloc.Bump.Ranges.{IsPaging, IsApart}
use uni_alloc.Bump.Fresh.{IsNewBlock, alloc-IsNewBlock}
use uni_alloc.Bump.Backend.{new, alloc, clean_up}

-- The state is the first page that was never mapped; nothing is unmapped.
unfoldable mmap : ℕ → ℕ → ℕ × ℕ
mmap os n =
    let pages = (n + 4095) / 4096 in
    if ltb ((os + 1 + pages) * 4096) (2 ^ 63)
    then ((os + 1) * 4096, os + 1 + pages)
    else (usize_max, os)

abbrev munmap : ℕ → ℕ → ℕ → ℕ
munmap os p n = os

abbrev Mapped : ℕ → ℕ → Type 0
Mapped os a = a < os * 4096

mmap-IsPaging : IsPaging mmap munmap Mapped
unfolding mmap
mmap-IsPaging = record {
  placed = λ os n fine. ground arith;
  aligned = λ os n fine. ground arith;
  separate = λ os n a fine w m. ground arith;
  mapped = λ os n a fine w. ground arith;
  kept = λ os n a m. ground arith;
  spared = λ os p n a m out. m;
}

abbrev Nothing : ℕ → Type 0
Nothing a = ⊥

new-IsApart : IsApart (Mapped 0) Nothing 0 0
new-IsApart = record {
  bounded = omega arith;
  word = omega arith;
  in_use = λ a g. absurd g;
  rest = λ a l h. absurd (omega arith);
  apart = λ a g l h. g;
}

alloc-IsNewBlock_example :
    IsNewBlock
      (Mapped (alloc mmap munmap new 5000 0).2)
      Nothing
      8192
      ((alloc mmap munmap new 5000 0).0, (alloc mmap munmap new 5000 0).1)
unfolding mmap clean_up
alloc-IsNewBlock_example =
    alloc-IsNewBlock mmap-IsPaging Nothing new 0 new-IsApart (refl, refl) 5000 2 (omega arith)
      (omega arith) (omega arith) (omega arith)
