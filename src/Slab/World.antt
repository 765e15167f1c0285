-- ===== src/Slab/World.antt =====
-- What the slab allocators share: the page headers, the words of free chunks, the radix tree, the
-- allocator of headers and the page backend, with the calls of the operating system and of the
-- backend as arguments.
use uni_alloc.Base.{ℕ, ◌+◌, ◌-◌, ◌^◌, ltb, if◌then◌else◌}
use uni_alloc.Memory.{Memory}
use uni_alloc.Page.{ObjectPage}
use uni_alloc.Radix.Head.{RadixTree}
use uni_alloc.Bump.Pages.{PageBumpAlloc}
use uni_alloc.Slab.Lists.{Headers, modify}

pub record World (Os Backend : Type 0) : Type 0 where
  pub headers : Headers
  pub memory : Memory
  pub ptr_map : RadixTree
  pub pg_bump : PageBumpAlloc
  pub os : Os
  pub backend : Backend

-- The backend (freelist/mod.rs): `alloc` with a size in bytes, which answers 0 when it fails, and
-- `dealloc` with an address and a size. It marks its free blocks in the radix tree that the slab
-- allocators enter their slabs in, so both calls get that tree and may change it. PAGE_SIZE is `2 ^ page_bits`; `header` is the size of a
-- header and `per_mapping` the number of headers in a mapping.
pub record Platform (Os Backend : Type 0) : Type 0 where
  pub page_bits : ℕ
  pub header : ℕ
  pub per_mapping : ℕ
  pub mmap : Os → ℕ → ℕ × Os
  pub alloc : RadixTree × Backend → ℕ → ℕ × (RadixTree × Backend)
  pub dealloc : RadixTree × Backend → ℕ → ℕ → RadixTree × Backend

-- `x as usize` for an `i32` as a bit pattern.
unfoldable pub as_usize : ℕ → ℕ
as_usize x = if ltb x (2 ^ 31) then x else x + (2 ^ 64 - 2 ^ 32)

-- The header at `idx` gets the value `page`.
unfoldable pub write_page : Headers → ℕ → ObjectPage → Headers
unfolding modify
write_page h idx page = modify h idx (λ _. page)
