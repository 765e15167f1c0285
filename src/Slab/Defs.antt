-- ===== src/Slab/Defs.antt =====
-- The state of efficient_sc.rs and its constructor `new`.
use uni_alloc.Base.{ℕ, ◌/◌, ◌%◌, ◌^◌, ◌==◌, if◌then◌else◌}
use uni_alloc.Base.Run.{Run, ok, panic}
use uni_alloc.Base.Words.{add64, sub64, mul64, next_power_of_two, is_power_of_two}

abbrev pub null : ℕ
null = 0

-- The four list heads are the addresses of `ObjectPage` headers, or null.
pub record ScAllocator : Type 0 where
  pub full_start : ℕ
  pub partial_start : ℕ
  pub empty_start : ℕ
  pub uninit_start : ℕ
  pub empty_count : ℕ
  pub pg_num : ℕ
  pub pg_count : ℕ
  pub pg_align : ℕ

-- `x as i32`, as a bit pattern.
abbrev as_i32 : ℕ → ℕ
as_i32 x = x % 2 ^ 32

unfoldable pub min_align_for : ℕ → ℕ
min_align_for diff_align =
    if next_power_of_two diff_align / 2 == 0 then 1 else next_power_of_two diff_align / 2

-- `size_class` taken up to a multiple of `min_align`.
unfoldable pub rem_for : ℕ → ℕ → ℕ
rem_for size_class min_align =
    if size_class % min_align == 0
    then size_class
    else mul64 (add64 (size_class / min_align) 1) min_align

unfoldable pub align_for : ℕ → ℕ → ℕ
align_for size_class perfect_align =
    let min_align = min_align_for (sub64 perfect_align size_class) in
    if is_power_of_two perfect_align then perfect_align else rem_for size_class min_align

module _ (page_size : ℕ) where
  -- A division by 0 panics, here for a size class larger than its pages.
  unfoldable pub new : ℕ → ℕ → Run ScAllocator
  new size_class num_os_pages =
      let lists_empty : ℕ → ℕ → ℕ → ScAllocator = λ pg_num pg_count pg_align. record {
        full_start = null;
        partial_start = null;
        empty_start = null;
        uninit_start = null;
        empty_count = 0;
        pg_num = pg_num;
        pg_count = pg_count;
        pg_align = pg_align;
      } in
      let bytes = mul64 page_size num_os_pages in
      let pg_count = bytes / size_class in
      let align = align_for size_class (bytes / pg_count) in
      if size_class == 0
      then ok (lists_empty 0 0 0)
      else if pg_count == 0
      then panic
      else ok (lists_empty num_os_pages (as_i32 pg_count) (as_i32 align))
