-- ===== src/Radix.antt =====
-- unialloc/src/collections/radix_tree.rs, the tree of two levels (without the fixed_heap feature),
-- by which the allocator finds the header of a page.
pub mod Bottom
pub mod Head
pub mod Lookup
pub mod Slabs
pub mod Wide
mod Examples
