-- ===== src/Slab.antt =====
-- unialloc/src/sc/efficient_sc.rs: the allocator of one size class.
pub mod Defs
mod Examples
pub mod Geometry
pub mod Lists
pub mod World
pub mod Batches
