-- ===== src/SeparateSc.antt =====
-- unialloc/src/sc/separate_sc.rs: the slab allocator whose headers lie in one vector, linked by index,
-- with the bit fields of all slabs in another. `align_12k` and the two functions on the tree are the
-- ones of the efficient variant. The capacity of the vectors is not part of the state.
pub mod Lists
pub mod Geometry
pub mod Chunks
pub mod Batches
pub mod Rings
pub mod Joining
pub mod Moves
pub mod Relisting
mod Examples
use uni_alloc.Base.{ℕ, ◌+◌, ◌*◌, ◌/◌, ◌==◌, if◌then◌else◌, List, []}
use uni_alloc.Base.Run.{Run, ok, panic}
use uni_alloc.Base.Words.{sub64, mul64}
use uni_alloc.ArrayList.{ArrayLinkedList}
use uni_alloc.ArrayList
use uni_alloc.SeparatePage.{ObjectPage}
use uni_alloc.Slab.Defs.{align_for}

pub record ScAllocator : Type 0 where
  pub full_start : ℕ
  pub partial_start : ℕ
  pub empty_start : ℕ
  pub uninit_start : ℕ
  pub full_count : ℕ
  pub empty_count : ℕ
  pub partial_count : ℕ
  pub uninit_count : ℕ
  pub pg_num : ℕ
  pub pg_count : ℕ
  pub pg_align : ℕ
  pub bitfields : List ℕ
  pub pages : ArrayLinkedList ObjectPage

abbrev lists_empty : ℕ → ℕ → ℕ → ScAllocator
lists_empty pg_num pg_count pg_align = record {
  full_start = 0;
  partial_start = 0;
  empty_start = 0;
  uninit_start = 0;
  full_count = 0;
  empty_count = 0;
  partial_count = 0;
  uninit_count = 0;
  pg_num = pg_num;
  pg_count = pg_count;
  pg_align = pg_align;
  bitfields = [];
  pages = ArrayList.new;
}

-- A division by 0 panics, here for a size class larger than its pages.
unfoldable pub new : ℕ → ℕ → ℕ → Run ScAllocator
new page_size size_class num_os_pages =
    let bytes = mul64 page_size num_os_pages in
    let pg_count = bytes / size_class in
    if size_class == 0
    then ok (lists_empty 0 0 0)
    else if pg_count == 0
    then panic
    else ok (lists_empty num_os_pages pg_count (align_for size_class (bytes / pg_count)))
