-- ===== src/Bump/Meta.antt =====
-- `BumpAlloc` and `MetaBumpAlloc` of unialloc/src/sc/mod.rs. Blocks of the size of a thread cache
-- that come back are kept in a list through their first words. `alloc_unit` is that size.
use uni_alloc.Base.{ℕ, ◌/◌, ◌^◌, ◌*◌, Bool, not, ◌&&◌, ltb, leb, ◌==◌, if◌then◌else◌}
use uni_alloc.Base.Words.{add64, sub64, mul64}
use uni_alloc.Memory.{Memory, write}
use uni_alloc.Bump.Backend.{null_on_failure}

-- `DEFAULT_SIZE`
abbrev pub default_size : ℕ
default_size = 4 * 2 ^ 24

pub record BumpAlloc : Type 0 where
  pub start : ℕ
  pub current : ℕ

-- Some of the mapping is left.
unfoldable pub has_room : BumpAlloc → Bool
has_room s = ltb s.start s.current && leb (sub64 s.current s.start) default_size

-- The room left is not compared with the size: a block longer than it begins below the mapping.
module _ {Os : Type 0} (mmap : Os → ℕ → ℕ × Os) where
  unfoldable pub renew : Os → BumpAlloc × Os
  renew os =
      let (ptr, os') = mmap os default_size in
      let start = null_on_failure ptr in
      (record { start = start; current = add64 start default_size }, os')

  unfoldable pub alloc : BumpAlloc → ℕ → Os → ℕ × BumpAlloc × Os
  unfolding has_room renew
  alloc s size os =
      let (s', os') = if has_room s then (s, os) else renew os in
      let new_cur = sub64 s'.current size in (new_cur, record s' { current = new_cur }, os')

pub record MetaBumpAlloc : Type 0 where
  pub bumper : BumpAlloc
  pub backup : ℕ

module _ {Os : Type 0} (mmap : Os → ℕ → ℕ × Os) (alloc_unit : ℕ) where
  -- `size` taken up to whole units.
  unfoldable pub unit_size : ℕ → ℕ
  unit_size size = mul64 (sub64 (add64 size alloc_unit) 1 / alloc_unit) alloc_unit

  unfoldable pub alloc_meta : MetaBumpAlloc → ℕ → Memory → Os → ℕ × MetaBumpAlloc × Os
  unfolding unit_size
  alloc_meta s size m os =
      let (ptr, bumper, os') = alloc mmap s.bumper (unit_size size) os in
      if (unit_size size == alloc_unit) && not (s.backup == 0)
      then (s.backup, record s { backup = m s.backup }, os)
      else (ptr, record s { bumper = bumper }, os')

  unfoldable pub dealloc_meta : MetaBumpAlloc → ℕ → Memory → MetaBumpAlloc × Memory
  dealloc_meta s ptr m = (record s { backup = ptr }, write m ptr s.backup)
