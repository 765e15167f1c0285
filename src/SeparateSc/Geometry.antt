-- ===== src/SeparateSc/Geometry.antt =====
-- The two variants of the slab allocator cut their slabs alike.
use uni_alloc.Base.{ℕ, ◌*◌, ◌/◌, ◌^◌, ◌<◌, ◌≤◌, ◌≡◌, refl, arith, ne→==}
use uni_alloc.Base.Run.{Returns, returns}
use uni_alloc.Base.Words.{mul64}
use uni_alloc.Slab.Defs.{align_for}
use uni_alloc.Slab.Defs
use uni_alloc.Slab.Geometry.{bytes-IsSmall}
use uni_alloc.SeparateSc.{ScAllocator, new}

-- What both constructors set; the efficient variant keeps the counts as `i32`.
pub record IsAlike (s : ScAllocator) (e : Defs.ScAllocator) : Type 0 where
  pub num : s.pg_num ≡ e.pg_num
  pub count : s.pg_count ≡ e.pg_count
  pub align : s.pg_align ≡ e.pg_align

-- For every size class with room for a chunk in its pages, of less than 2^31 bytes in all, both
-- constructors return, with the same pages, the same number of chunks and the same distance between
-- them.
pub new-IsAlike :
    (page_size size_class num_os_pages : ℕ)
    → 0 < size_class
    → size_class ≤ page_size * num_os_pages
    → page_size * num_os_pages < 2 ^ 31
    → Returns
        (λ s. Returns (IsAlike s) (Defs.new page_size size_class num_os_pages))
        (new page_size size_class num_os_pages)
unfolding new Defs.new
new-IsAlike page_size c n pos fits small =
    let no_wrap : mul64 page_size n ≡ page_size * n = omega arith in
    let s = bytes-IsSmall (page_size * n) c pos fits small in
    rw
      (no_wrap, ne→== c 0 (omega arith), ne→== (page_size * n / c) 0 s.some_chunk, s.count, s.align)
      (returns (returns record { num = refl; count = refl; align = refl }))
