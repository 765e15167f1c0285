-- ===== src/Bump/Backend.antt =====
-- `BumpAlloc` of unialloc/src/freelist/bump.rs. The calls of mmap and munmap are arguments, over
-- the state of the operating system; mmap answers `usize::MAX` when it fails.
use uni_alloc.Base.{ℕ, ◌+◌, ◌^◌, ◌/◌, ltb, ◌==◌, if◌then◌else◌, Option, none, some}
use uni_alloc.Base.Words.{usize_max, add64, sub64, mul64}

-- `PG_SIZE`
abbrev pub pg_size : ℕ
pg_size = 4096

-- `DEFAULT_SIZE`
abbrev pub default_size : ℕ
default_size = 0x100000000

pub record BumpAlloc : Type 0 where
  pub check_point : ℕ
  pub current : ℕ

abbrev pub new : BumpAlloc
new = record { check_point = 0; current = 0 }

-- What mmap answers, with a failure as the null pointer.
unfoldable pub null_on_failure : ℕ → ℕ
null_on_failure ptr = if ptr == usize_max then 0 else ptr

-- `size` taken up to whole pages.
unfoldable pub alloc_size : ℕ → ℕ
alloc_size size = mul64 (sub64 (add64 size pg_size) 1 / pg_size) pg_size

-- The result of an `alloc`: an address, or `none` for an error.
unfoldable pub alloc_from : BumpAlloc → ℕ → Option ℕ × BumpAlloc
alloc_from s n =
    if ltb s.current n
    then (none, s)
    else (some (sub64 s.current n), record s { current = sub64 s.current n })

module _ {Os : Type 0} (munmap : Os → ℕ → ℕ → Os) where
  -- What is left of the last mapping is given back.
  unfoldable pub clean_up : BumpAlloc → Os → Os
  clean_up s os =
      if s.check_point == s.current
      then os
      else munmap os s.check_point (sub64 s.current s.check_point)

module _ {Os : Type 0} (mmap : Os → ℕ → ℕ × Os) (munmap : Os → ℕ → ℕ → Os) where
  unfoldable pub init : BumpAlloc → Os → BumpAlloc × Os
  unfolding clean_up
  init s os =
      let (ptr, os') = mmap (clean_up munmap s os) default_size in
      let start = null_on_failure ptr in
      (record { check_point = start; current = add64 start default_size }, os')

  unfoldable pub alloc : BumpAlloc → ℕ → Os → Option ℕ × BumpAlloc × Os
  unfolding init
  alloc s size os =
      let n = alloc_size size in
      let (s', os') = if ltb s.current (add64 s.check_point n) then init s os else (s, os) in
      let (ptr, s'') = alloc_from s' n in (ptr, s'', os')

-- With the fixed_heap feature, `check_point` is the end of the range, which is cut from its start.
unfoldable pub init_with_range : ℕ → ℕ → BumpAlloc
init_with_range start end = record { check_point = end; current = start }

unfoldable pub extend_with_range : BumpAlloc → ℕ → ℕ × BumpAlloc
extend_with_range s size =
    let end = add64 s.check_point size in (end, record s { check_point = end })

-- `alloc` with that feature; `none` stands for both errors.
unfoldable pub alloc_fixed : BumpAlloc → ℕ → Option ℕ × BumpAlloc
alloc_fixed s size =
    let n = alloc_size size in
    if ltb (sub64 s.check_point n) s.current
    then (none, s)
    else if ltb (s.current + n) (2 ^ 64)
    then (some s.current, record s { current = s.current + n })
    else (none, s)
