-- ===== src/Bump/Pages.antt =====
-- `PageBumpAlloc` of unialloc/src/page/mod.rs, which gives out the slab headers. `header` is the
-- size of an `EfObjectPage`, `headers` the number of them in a mapping (PAGE_SIZE, or 2^21 with the
-- hugepage feature).
use uni_alloc.Base.{ℕ, ◌||◌, ltb, leb, ◌==◌, if◌then◌else◌, Bool, Option, none, some, ◌/◌, ◌*◌}
use uni_alloc.Base.Run.{Run, ok, assert, ◌>>◌}
use uni_alloc.Base.Words.{add64, sub64, mul64}
use uni_alloc.Bump.Backend.{null_on_failure}

pub record PageBumpAlloc : Type 0 where
  pub start : ℕ
  pub current : ℕ

abbrev pub new : PageBumpAlloc
new = record { start = 0; current = 0 }

unfoldable pub init_with_range : ℕ → ℕ → PageBumpAlloc
init_with_range start end = record { start = start; current = end }

-- `start & !(page_size - 1)` for a page size that is a power of two; `none` for the error.
unfoldable pub try_extend : PageBumpAlloc → ℕ → ℕ → ℕ → Option PageBumpAlloc
try_extend s start end page_size =
    if end == s.start then some (record s { start = start / page_size * page_size }) else none

module _ {Os : Type 0} (mmap : Os → ℕ → ℕ × Os) (header headers : ℕ) where
  -- `DEFAULT_SIZE`
  abbrev pub default_size : ℕ
  default_size = mul64 header headers

  unfoldable pub is_used_up : PageBumpAlloc → Bool
  is_used_up s = leb s.current s.start || ltb default_size (sub64 s.current s.start)

  unfoldable pub renew : Os → PageBumpAlloc × Os
  renew os =
      let (ptr, os') = mmap os default_size in
      let start = null_on_failure ptr in
      (record { start = start; current = add64 start default_size }, os')

  unfoldable pub alloc : PageBumpAlloc → ℕ → Os → Run (ℕ × PageBumpAlloc × Os)
  unfolding is_used_up renew
  alloc s size os = do
    assert (size == header)
    let (s', os') = if is_used_up s then renew os else (s, os)
    let new_cur = sub64 s'.current size
    ok (new_cur, record s' { current = new_cur }, os')
